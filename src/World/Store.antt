-- ===== src/World/Store.antt =====
-- What the server relies on in `getBlockChange` and `makeBlockChange` of procedures.c, whichever
-- of their two versions is built: an interface, which the two arrays fill, and any sequence of
-- changes through it.
pub mod Arrays
use macintosh_craft.Base.{ℕ, ◌+◌, ◌≤◌, ◌<◌, ◌≡◌, ◌≢◌, refl, sym, ◌∙◌, Bool, true, false}
use macintosh_craft.Base.{Option, none, some, List, [], ◌∷◌, length, arith, if◌then◌else◌}
use macintosh_craft.World.Changes.{Place, gap, max_block_changes}
use macintosh_craft.World.Changes.Write.{same_place}

-- One call of `makeBlockChange`; `is_base_block` is its comparison with the terrain.
pub record Request : Type 0 where
  pub is_base_block : Bool
  pub place : Place
  pub block : ℕ

-- A map from places to blocks, updated with a request. The gap says that the terrain is unchanged.
unfoldable pub apply_request : Request → (Place → ℕ) → Place → ℕ
apply_request r m q =
    if same_place r.place q then (if r.is_base_block then gap else r.block) else m q

unfoldable pub apply_requests : List Request → (Place → ℕ) → Place → ℕ
apply_requests [] m = m
apply_requests (r ∷ rs) m = apply_requests rs (apply_request r m)

-- No request is to place a chest, whose item data only the unsorted array has.
unfoldable pub NoChests : ℕ → List Request → Type 0
NoChests chest [] = Unit
NoChests chest (r ∷ rs) = (r.block ≢ chest) × NoChests chest rs

pub record ChangeStore (chest : ℕ) (Array : Type 0) : Type 1 where
  pub IsValid : Array → Type 0
  pub size : Array → ℕ
  pub read : Array → Place → ℕ
  -- The array afterwards, or nothing where `makeBlockChange` returns 1.
  pub write : Request → Array → Option Array
  pub start : Array
  pub start-IsValid : IsValid start
  pub start_size : size start ≡ 0
  pub read_start : (q : Place) → read start q ≡ gap
  pub write_law :
      (r : Request) (s : Array)
      → IsValid s
      → r.block ≢ chest
      → size s < max_block_changes
      → (t : Array) × (write r s ≡ some t)
        × IsValid t
        × (size t ≤ size s + 1)
        × ((q : Place) → read t q ≡ apply_request r (read s) q)

module _ {chest : ℕ} {Array : Type 0} (c : ChangeStore chest Array) where
  open c use {start, read_start, IsValid, size, read, write, write_law, start-IsValid, start_size}

  -- The requests one after the other, up to the first that is refused.
  unfoldable pub write_all : List Request → Array → Option Array
  write_all [] s = some s
  write_all (r ∷ rs) s = elim (write r s) [ none ↦ none | some t ↦ write_all rs t ]

  apply_requests-ext :
      (rs : List Request) (m n : Place → ℕ)
      → ((q : Place) → m q ≡ n q)
      → (q : Place) → apply_requests rs m q ≡ apply_requests rs n q
  unfolding apply_requests apply_request
  apply_requests-ext [] m n h q = h q
  apply_requests-ext (r ∷ rs) m n h q =
      apply_requests-ext rs (apply_request r m) (apply_request r n) (λ u. rw (h u)) q

  write_all_refines :
      (rs : List Request) (s : Array)
      → IsValid s
      → NoChests chest rs
      → size s + length rs ≤ max_block_changes
      → (t : Array) × (write_all rs s ≡ some t)
        × ((q : Place) → read t q ≡ apply_requests rs (read s) q)
  unfolding write_all apply_requests NoChests
  write_all_refines [] s v plain room = (s, refl, λ q. refl)
  write_all_refines (r ∷ rs) s v plain room =
      let (t, e, u, small, law) = write_law r s v plain.0 (omega arith) in
      let (w, f, all) = write_all_refines rs t u plain.1 (omega arith) in
      (
        w,
        rw (e, write_all) f,
        λ q. all q ∙ apply_requests-ext rs (read t) (apply_request r (read s)) law q,
      )

  -- From the start, the requests build the map.
  pub write_all-start :
      (rs : List Request)
      → NoChests chest rs
      → length rs ≤ max_block_changes
      → (t : Array) × (write_all rs start ≡ some t)
        × ((q : Place) → read t q ≡ apply_requests rs (λ _. gap) q)
  write_all-start rs plain room =
      let (t, e, law) =
        write_all_refines rs start start-IsValid plain (omega (arith, start_size)) in
      (t, e, λ q. law q ∙ apply_requests-ext rs (read start) (λ _. gap) read_start q)
