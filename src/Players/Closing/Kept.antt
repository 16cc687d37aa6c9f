-- ===== src/Players/Closing/Kept.antt =====
-- What a player has, before and after `cs_closeContainer` of packets.c.
use macintosh_craft.Base.{
  ℕ, zero, suc, ◌+◌, ◌≤◌, ◌<◌, ◌≡◌, ◌≢◌, refl, sym, ap, ◌∙◌, Bool, true, false, ◌||◌, inl, inr, [],
  arith, Bool-cases, leb, ◌==◌, if◌then◌else◌,
}
use macintosh_craft.Base.Array.{update_self, update_ne}
use macintosh_craft.Registry.{Registry}
use macintosh_craft.Items.{get_item_stack_size}
use macintosh_craft.Players.{PlayerData}
use macintosh_craft.Players.Give.{give_player_item, choose_slot}
use macintosh_craft.Players.Give.Total.{sum_below, sum_below_change, held, give_player_item-held}
use macintosh_craft.Players.Closing.{
  Return, give_back, forget_slot, close_slot, close_loop, close_container,
}

abbrev pub in_grid_slot : PlayerData → ℕ → ℕ → ℕ
in_grid_slot p item i = if p.craft_items i == item then p.craft_count i else 0

-- How many of an item are in the grid, on the cursor, and in all.
unfoldable pub in_grid : PlayerData → ℕ → ℕ
in_grid p item = sum_below 9 (in_grid_slot p item)

abbrev pub on_cursor : PlayerData → ℕ → ℕ
on_cursor p item = if p.flagval_16 == item then p.flagval_8 else 0

abbrev pub owned : PlayerData → ℕ → ℕ
owned p item = held p item + in_grid p item + on_cursor p item

-- No slot of the grid has more than a stack, and neither has the cursor.
abbrev pub IsStacked : Registry → PlayerData → Type 0
IsStacked r p =
    ((i : ℕ) → i < 9 → p.craft_count i ≤ get_item_stack_size r (p.craft_items i))
    × (p.flagval_8 ≤ get_item_stack_size r p.flagval_16)

-- What is kept of a number: all of it, unless a call failed.
abbrev pub IsKept : ℕ → ℕ → Bool → Type 0
IsKept before after refused = (after ≤ before) × ((refused ≡ false) → after ≡ before)

-- A gift changes nothing but the inventory.
give_player_item-outside :
    (r : Registry) (p : PlayerData) (item count : ℕ)
    → let q = (give_player_item r p item count).player in
      (q.craft_items ≡ p.craft_items)
      × (q.craft_count ≡ p.craft_count)
      × (q.flagval_16 ≡ p.flagval_16)
      × (q.flagval_8 ≡ p.flagval_8)
      × (q.flags ≡ p.flags)
unfolding give_player_item
give_player_item-outside r p item count = elim (Bool-cases (item == 0 || count == 0)) [
  | inl t ↦ rw t (refl, refl, refl, refl, refl)
  | inr t ↦ elim (Bool-cases (leb 36 (choose_slot r p item count))) [
    | inl far ↦ rw (t, far) (refl, refl, refl, refl, refl)
    | inr near ↦ rw (t, near) (refl, refl, refl, refl, refl)
  ]
]

give_player_item-nothing :
    (r : Registry) (p : PlayerData) (item count : ℕ)
    → (item == 0 || count == 0) ≡ true
    → (give_player_item r p item count).player ≡ p
unfolding give_player_item
give_player_item-nothing r p item count t = rw t refl

-- After a gift of up to a stack, the player holds as many more, or the gift was refused.
give_player_item-IsKept :
    (r : Registry) (p : PlayerData) (item count other : ℕ)
    → other ≢ 0
    → count ≤ get_item_stack_size r item
    → let gift = give_player_item r p item count in
      IsKept
        (held p other + (if item == other then count else 0))
        (held gift.player other)
        gift.failed
give_player_item-IsKept r p item count other real fits =
    elim (Bool-cases (item == 0 || count == 0)) [
      | inl t ↦ rw (give_player_item-nothing r p item count t) (ground arith, λ e. ground arith)
      | inr t ↦ elim (give_player_item-held r p item count (ground arith) (ground arith) fits) [
        | inl (_, more) ↦ let sum = more other in (ground arith, λ e. ground arith)
        | inr (bad, same, _) ↦
            let kept : held (give_player_item r p item count).player other ≡ held p other =
              ap (λ q. held q other) same in
            (ground arith, λ e. cc)
      ]
    ]

held-forget_slot : (p : PlayerData) (i item : ℕ) → held (forget_slot i p) item ≡ held p item
unfolding held
held-forget_slot p i item = refl

-- What leaves the grid comes to the inventory or is lost.
moved :
    (h h' g g' c c' s : ℕ) (b : Bool)
    → IsKept (h + s) h' b
    → g' + s ≡ g
    → c' ≡ c
    → IsKept (h + g + c) (h' + g' + c') b
moved h h' g g' c c' s b (less, same) grid carried =
    (omega arith, λ e. let sum = same e in omega arith)

IsKept_trans : (a b c : ℕ) (x y : Bool) → IsKept a b x → IsKept b c y → IsKept a c (x || y)
IsKept_trans a b c x y (less, same) (less', same') =
    (omega arith, λ e. same' (ground arith) ∙ same (ground arith))

forget_slot-IsStacked :
    (r : Registry) (p q : PlayerData) (i : ℕ)
    → q.craft_items ≡ p.craft_items
    → q.craft_count ≡ p.craft_count
    → q.flagval_16 ≡ p.flagval_16
    → q.flagval_8 ≡ p.flagval_8
    → IsStacked r p
    → IsStacked r (forget_slot i q)
forget_slot-IsStacked r p q i items counts cursor amount (grid, carried) = (
  λ j low. elim (Bool-cases (i == j)) [
    | inl e ↦ rw e (omega arith)
    | inr e ↦ rw (e, items, counts) (grid j low)
  ],
  rw (cursor, amount) carried,
)

-- A round for a window that is no chest.
close_slot-open :
    (r : Registry) (window_id i : ℕ) (w : Return)
    → (window_id == 2) ≡ false
    → let gift = give_player_item r w.player (w.player.craft_items i) (w.player.craft_count i) in
      ((close_slot r window_id i w).player ≡ forget_slot i gift.player)
      × ((close_slot r window_id i w).refused ≡ (w.refused || gift.failed))
unfolding close_slot give_back
close_slot-open r window_id i w plain = rw plain (refl, refl)

module _ (r : Registry) (other : ℕ) (real : other ≢ 0) where
  -- A slot that is given back and emptied leaves the grid.
  in_grid-forget_slot :
      (p q : PlayerData) (i : ℕ)
      → i < 9
      → q.craft_items ≡ p.craft_items
      → q.craft_count ≡ p.craft_count
      → in_grid (forget_slot i q) other + in_grid_slot p other i ≡ in_grid p other
  unfolding in_grid
  in_grid-forget_slot p q i low items counts =
      let f = in_grid_slot (forget_slot i q) other in
      let g = in_grid_slot p other in
      let here : f i ≡ 0 =
        rw (update_self q.craft_items i 0, update_self q.craft_count i 0) (ground arith) in
      let elsewhere : (j : ℕ) → j ≢ i → f j ≡ g j = λ j ne.
        rw
          (
            update_ne q.craft_items {i = i} {j = j} 0 (λ e. ne (sym e)),
            update_ne q.craft_count {i = i} {j = j} 0 (λ e. ne (sym e)),
            items,
            counts,
          )
          refl in
      let change = sum_below_change 9 i f g low elsewhere in omega arith

  close_slot-IsKept :
      (window_id i before : ℕ) (w : Return)
      → (window_id == 2) ≡ false
      → i < 9
      → IsStacked r w.player
      → IsKept before (owned w.player other) w.refused
      → let u = close_slot r window_id i w in
        IsStacked r u.player × IsKept before (owned u.player other) u.refused
  close_slot-IsKept window_id i before w plain low stacked kept =
      let p = w.player in
      let gift = give_player_item r p (p.craft_items i) (p.craft_count i) in
      let (items, counts, cursor, amount, _) =
        give_player_item-outside r p (p.craft_items i) (p.craft_count i) in
      let given =
        give_player_item-IsKept r p (p.craft_items i) (p.craft_count i) other real
          (stacked.0 i low) in
      let grid = in_grid-forget_slot p gift.player i low items counts in
      let carried : on_cursor gift.player other ≡ on_cursor p other = rw (cursor, amount) refl in
      let (after, refused) = close_slot-open r window_id i w plain in
      let step = moved _ _ _ _ _ _ _ gift.failed given grid carried in
      rw (after, refused, held-forget_slot gift.player i other)
        (
          forget_slot-IsStacked r p gift.player i items counts cursor amount stacked,
          IsKept_trans _ _ _ _ _ kept step,
        )

  close_loop-IsKept :
      (n i window_id before : ℕ) (w : Return)
      → (window_id == 2) ≡ false
      → i + n ≤ 9
      → IsStacked r w.player
      → IsKept before (owned w.player other) w.refused
      → let u = close_loop n r window_id i w in
        IsStacked r u.player × IsKept before (owned u.player other) u.refused
  unfolding close_loop
  close_loop-IsKept zero i window_id before w plain low stacked kept = (stacked, kept)
  close_loop-IsKept (suc n) i window_id before w plain low stacked kept =
      let (s, k) = close_slot-IsKept window_id i before w plain (omega arith) stacked kept in
      close_loop-IsKept n (i + 1) window_id before (close_slot r window_id i w) plain (omega arith)
        s k

-- The first `n` slots of the grid are empty, and one round has unlocked it.
abbrev pub IsEmptied : ℕ → PlayerData → Type 0
IsEmptied n p =
    ((i : ℕ) → i < n → (p.craft_items i ≡ 0) × (p.craft_count i ≡ 0))
    × (0 < n → p.flags.locked ≡ false)

forget_slot-IsEmptied :
    (p q : PlayerData) (i : ℕ)
    → q.craft_items ≡ p.craft_items
    → q.craft_count ≡ p.craft_count
    → IsEmptied i p
    → IsEmptied (i + 1) (forget_slot i q)
forget_slot-IsEmptied p q i items counts (empty, _) = (
  λ j low. elim (Bool-cases (i == j)) [
    | inl e ↦ rw e (refl, refl)
    | inr e ↦ rw (e, items, counts) (empty j (ground arith))
  ],
  λ h. refl,
)

close_slot-IsEmptied :
    (r : Registry) (window_id i : ℕ) (w : Return)
    → IsEmptied i w.player
    → IsEmptied (i + 1) (close_slot r window_id i w).player
unfolding close_slot give_back
close_slot-IsEmptied r window_id i w empty =
    let p = w.player in
    let gift = give_player_item r p (p.craft_items i) (p.craft_count i) in
    let (items, counts, _, _, _) =
      give_player_item-outside r p (p.craft_items i) (p.craft_count i) in
    elim (Bool-cases (window_id == 2)) [
      | inl chest ↦ rw chest (forget_slot-IsEmptied p p i refl refl empty)
      | inr plain ↦ rw plain (forget_slot-IsEmptied p gift.player i items counts empty)
    ]

close_loop-IsEmptied :
    (n i : ℕ) (r : Registry) (window_id : ℕ) (w : Return)
    → IsEmptied i w.player
    → IsEmptied (i + n) (close_loop n r window_id i w).player
unfolding close_loop
close_loop-IsEmptied zero i r window_id w empty = let e : i + 0 ≡ i = omega arith in rw e empty
close_loop-IsEmptied (suc n) i r window_id w empty =
    let rest =
      close_loop-IsEmptied n (i + 1) r window_id (close_slot r window_id i w)
        (close_slot-IsEmptied r window_id i w empty) in
    let e : i + 1 + n ≡ i + suc n = omega arith in rw e at rest

sum_below-zero : (n : ℕ) (f : ℕ → ℕ) → ((i : ℕ) → i < n → f i ≡ 0) → sum_below n f ≡ 0
unfolding sum_below
sum_below-zero zero f h = refl
sum_below-zero (suc n) f h =
    omega (arith, sum_below-zero n f (λ i k. h i (omega arith)), h n (omega arith))

in_grid-zero : (p : PlayerData) (item : ℕ) → IsEmptied 9 p → in_grid p item ≡ 0
unfolding in_grid
in_grid-zero p item (empty, _) =
    sum_below-zero 9 (in_grid_slot p item)
      (λ i low. let (_, none_left) = empty i low in rw none_left (ground arith))

-- The last gift, when the grid is empty.
last_gift :
    (h h' g c before : ℕ) (x b : Bool)
    → g ≡ 0
    → IsKept before (h + g + c) x
    → IsKept (h + c) h' b
    → IsKept before h' (x || b)
last_gift h h' g c before x b none_left kept given =
    let kept' : IsKept before (h + c) x = (omega (arith, kept.0), λ e. omega (arith, kept.1 e)) in
    IsKept_trans before (h + c) h' x b kept' given

-- Closing a window that is no chest, when neither a slot of the grid nor the cursor has more than a
-- stack, empties and unlocks the grid and empties the cursor. Of every item the player then holds at
-- most as many as the inventory, the grid and the cursor had, and exactly as many unless a call of
-- `givePlayerItem` failed.
pub close_container-held :
    (r : Registry) (window_id : ℕ) (p : PlayerData)
    → (window_id == 2) ≡ false
    → IsStacked r p
    → let u = close_container r window_id p in
      IsEmptied 9 u.player
      × ((u.player.flagval_16 ≡ 0) × (u.player.flagval_8 ≡ 0))
      × ((item : ℕ) → item ≢ 0 → IsKept (owned p item) (held u.player item) u.refused)
unfolding close_container give_back held
close_container-held r window_id p plain stacked =
    let start : Return = record { player = p; sent = []; refused = false } in
    let w = close_loop 9 r window_id 0 start in
    let empty =
      close_loop-IsEmptied 9 0 r window_id start
        (λ i h. absurd (omega arith), λ h. absurd (omega arith)) in
    let (items, counts, _, _, flags) =
      give_player_item-outside r w.player w.player.flagval_16 w.player.flagval_8 in
    let gift = give_player_item r w.player w.player.flagval_16 w.player.flagval_8 in
    (
      (λ i low. rw (items, counts) (empty.0 i low), λ h. rw flags (empty.1 h)),
      (refl, refl),
      λ item real.
          let (s, k) =
            close_loop-IsKept r item real 9 0 window_id (owned p item) start plain (omega arith)
              stacked (omega arith, λ e. refl) in
          let given =
            give_player_item-IsKept r w.player w.player.flagval_16 w.player.flagval_8 item real
              s.1 in
          last_gift (held w.player item) (held gift.player item) (in_grid w.player item)
            (on_cursor w.player item) (owned p item) w.refused gift.failed
            (in_grid-zero w.player item empty) k given,
    )
