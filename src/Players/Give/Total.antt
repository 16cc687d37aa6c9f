-- ===== src/Players/Give/Total.antt =====
-- What `givePlayerItem` of procedures.c does to the items a player holds.
use macintosh_craft.Base.{
  ℕ, zero, suc, ◌+◌, ◌%◌, ◌≤◌, ◌<◌, ◌≡◌, ◌≢◌, refl, sym, ap, ◌∙◌, true, Bool-cases,
}
use macintosh_craft.Base.{
  inl, inr, [], false, ◌⊎◌, ◌||◌, some, Option-cases, Bool, arith, leb, ◌==◌, ==→eq, if◌then◌else◌,
}
use native.Mathlib.Decide.{ℕ_discrete}
use macintosh_craft.Base.Array.{update_self, update_ne}
use macintosh_craft.Registry.{Registry}
use macintosh_craft.Items.{get_item_stack_size}
use macintosh_craft.Players.{PlayerData}
use macintosh_craft.Players.Give.{
  find_slot, has_room, is_empty_slot, choose_slot, put_in, give_player_item,
}

-- The sum of the first `n` values.
unfoldable pub sum_below : ℕ → (ℕ → ℕ) → ℕ
sum_below zero f = 0
sum_below (suc n) f = sum_below n f + f n

-- How many of an item slot `i` holds, and all 41 slots together.
abbrev pub in_slot : PlayerData → ℕ → ℕ → ℕ
in_slot p item i = if p.inventory_items i == item then p.inventory_count i else 0

unfoldable pub held : PlayerData → ℕ → ℕ
held p item = sum_below 41 (in_slot p item)

sum_below_congr :
    (n : ℕ) (f g : ℕ → ℕ) → ((i : ℕ) → i < n → f i ≡ g i) → sum_below n f ≡ sum_below n g
unfolding sum_below
sum_below_congr zero f g h = refl
sum_below_congr (suc n) f g h =
    omega (arith, sum_below_congr n f g (λ i k. h i (omega arith)), h n (omega arith))

-- A change at one place changes the sum by as much.
pub sum_below_change :
    (n j : ℕ) (f g : ℕ → ℕ)
    → j < n
    → ((i : ℕ) → i ≢ j → f i ≡ g i)
    → sum_below n f + g j ≡ sum_below n g + f j
unfolding sum_below
sum_below_change zero j f g h k = absurd (omega arith)
sum_below_change (suc n) j f g h k = elim (ℕ_discrete n j) [
  | yes here ↦
      omega (arith, sum_below_congr n f g (λ i l. k i (λ e. omega arith)), ap f here, ap g here)
  | no ne ↦ omega (arith, sum_below_change n j f g (omega arith) k, k n ne)
]

-- A slot that is found passes the test.
find_slot_sound :
    (n : ℕ) (test : ℕ → Bool) (i j : ℕ)
    → find_slot n test i ≡ some j
    → (test j ≡ true) × (i ≤ j) × (j < i + n)
unfolding find_slot
find_slot_sound zero test i j e = absurd (cc)
find_slot_sound (suc n) test i j e = elim (Bool-cases (test i)) [
  | inl t ↦ let here : i ≡ j = some_eq (rw t at e) in (rw (← here) t, omega arith, omega arith)
  | inr t ↦
      let (a, b, c) = find_slot_sound n test (i + 1) j (rw t at e) in (a, omega arith, omega arith)
]
  where
    some_eq : {a b : ℕ} → some a ≡ some b → a ≡ b
    some_eq e = cc

put_in-held :
    (p : PlayerData) (item count slot other : ℕ)
    → slot < 41
    → (p.inventory_items slot ≡ item) ⊎ (p.inventory_count slot ≡ 0)
    → p.inventory_count slot + count < 256
    → held (put_in p item count slot) other ≡ held p other + (if other == item then count else 0)
unfolding held
put_in-held p item count slot other low old fits =
    let q = put_in p item count slot in
    let items = update_self p.inventory_items slot item in
    let counts = update_self p.inventory_count slot ((p.inventory_count slot + count) % 256) in
    let after : in_slot q other slot
        ≡ (if item == other then p.inventory_count slot + count else 0) =
      rw (items, counts) (ground arith) in
    let change =
      sum_below_change 41 slot (in_slot q other) (in_slot p other) low (λ i ne. same_slot i ne) in
    amounts (in_slot q other slot) (in_slot p other slot) _ _ change
      (after ∙ merged (p.inventory_items slot) (p.inventory_count slot) old)
  where
    merged :
        (i c : ℕ)
        → (i ≡ item) ⊎ (c ≡ 0)
        → (if item == other then c + count else 0)
          ≡ (if i == other then c else 0) + (if other == item then count else 0)
    merged i c (inl e) = rw e (ground arith)
    merged i c (inr e) = rw e (ground arith)

    same_slot : (i : ℕ) → i ≢ slot → in_slot (put_in p item count slot) other i ≡ in_slot p other i
    same_slot i ne = rw (
      update_ne p.inventory_items {i = slot} {j = i} item (λ e. ne (sym e)),
      update_ne p.inventory_count {i = slot} {j = i} ((p.inventory_count slot + count) % 256)
          (λ e. ne (sym e)),
    )

    amounts :
        (a b s t : ℕ)
        → s + b ≡ t + a
        → a ≡ b + (if other == item then count else 0)
        → s ≡ t + (if other == item then count else 0)
    amounts a b s t e f = omega arith

stack_size_bound : (r : Registry) (item : ℕ) → get_item_stack_size r item ≤ 64
unfolding get_item_stack_size
stack_size_bound r item = ground arith

-- The slot that is chosen is outside the main inventory, or has the item or nothing in it, and room.
choose_slot_sound :
    (r : Registry) (p : PlayerData) (item count slot : ℕ)
    → choose_slot r p item count ≡ slot
    → slot < 36
    → count ≤ get_item_stack_size r item
    → ((p.inventory_items slot ≡ item) ⊎ (p.inventory_count slot ≡ 0))
      × (p.inventory_count slot + count ≤ get_item_stack_size r item)
unfolding choose_slot
choose_slot_sound r p item count slot e low fits =
    elim (Option-cases (find_slot 41 (has_room r p item count) 0)) [
      | inl none_has ↦ elim (Option-cases (find_slot 41 (is_empty_slot p) 0)) [
        | inl none_empty ↦
            let far : 255 ≡ slot = rw (none_has, none_empty, choose_slot) at e in
            absurd (omega arith)
        | inr (i, found) ↦
            let here : i ≡ slot = rw (none_has, found, choose_slot) at e in
            let (test, _, _) = find_slot_sound 41 (is_empty_slot p) 0 i found in
            let free : p.inventory_count slot ≡ 0 = rw (← here) (==→eq _ 0 test) in
            (inr free, omega arith)
      ]
      | inr (i, found) ↦
          let here : i ≡ slot = rw (found, choose_slot) at e in
          let (test, _, _) = find_slot_sound 41 (has_room r p item count) 0 i found in
          let (same, room) = has_room_sound r p item count i test in rw (← here) (inl same, room)
    ]
  where
    has_room_sound :
        (r : Registry) (p : PlayerData) (item count i : ℕ)
        → has_room r p item count i ≡ true
        → (p.inventory_items i ≡ item) × (p.inventory_count i + count ≤ get_item_stack_size r item)
    has_room_sound r p item count i t = (ground arith, ground arith)

-- Giving `count` of an item, at least one and at most a stack of it, either succeeds and leaves the
-- player holding exactly `count` more of that item and as many of every other, or fails and leaves
-- the player as they were, without a packet.
pub give_player_item-held :
    (r : Registry) (p : PlayerData) (item count : ℕ)
    → item ≢ 0
    → count ≢ 0
    → count ≤ get_item_stack_size r item
    → let gift = give_player_item r p item count in
      ((gift.failed ≡ false)
        × ((other : ℕ)
            → held gift.player other ≡ held p other + (if other == item then count else 0)))
      ⊎ ((gift.failed ≡ true) × (gift.player ≡ p) × (gift.sent ≡ []))
unfolding give_player_item
give_player_item-held r p item count real some_of fits =
    elim (Bool-cases (item == 0 || count == 0)) [
      | inl t ↦ absurd (ground arith)
      | inr t ↦ elim (Bool-cases (leb 36 (choose_slot r p item count))) [
        | inl far ↦ rw (t, far) (inr (refl, refl, refl))
        | inr near ↦
            let slot = choose_slot r p item count in
            let low : slot < 36 = ground arith in
            let (old, room) = choose_slot_sound r p item count slot refl low fits in
            let bound = stack_size_bound r item in
            rw (t, near)
              (inl (
                refl,
                λ other. put_in-held p item count slot other (omega arith) old (omega arith),
              ))
      ]
    ]
