-- ===== src/Players/Roster/Search.antt =====
-- The two searches through `player_data`.
use macintosh_craft.Base.{
  ℕ, zero, suc, ◌+◌, ◌≤◌, ◌<◌, ◌≡◌, ◌≢◌, refl, ap, true, false, none, some, List, [], ◌∷◌, inl, inr,
  ◌⊎◌, arith, Bool-cases, ◌==◌, ==→eq, ==_iff,
}
use mathlib.Core.Path.{subst}
use macintosh_craft.Base.{and_left, and_right}
use native.Mathlib.Decide.{ℕ_discrete}
use macintosh_craft.Base.Int.{ℤ, eq_ℤ, eq_ℤ_iff}
use macintosh_craft.Base.Below.{below_suc}
use macintosh_craft.Players.{PlayerData}
use macintosh_craft.Players.Clients.{max_players}
use macintosh_craft.Players.Roster.{
  same_uuid, is_unset, Place, known, unused, nowhere, find_place, find_player, get_player_data,
}

same_uuid_self : (a : List ℕ) → same_uuid a a ≡ true
unfolding same_uuid
same_uuid_self [] = refl
same_uuid_self (x ∷ xs) = rw ((==_iff x x).1 refl) (same_uuid_self xs)

pub same→eq : (a b : List ℕ) → same_uuid a b ≡ true → a ≡ b
unfolding same_uuid
same→eq [] [] e = refl
same→eq [] (b ∷ bs) e = absurd (cc)
same→eq (a ∷ as') [] e = absurd (cc)
same→eq (a ∷ as') (b ∷ bs) e =
    rw (==→eq a b (and_left (a == b) _ e), same→eq as' bs (and_right (a == b) _ e)) refl

pub eq→same : (a b : List ℕ) → a ≡ b → same_uuid a b ≡ true
eq→same a b e = subst (λ x. same_uuid a x ≡ true) e (same_uuid_self a)

-- Where the search for a UUID stops: at the UUID, at a slot that was never used, or nowhere; no slot
-- before is one or the other.
pub data IsPlace (players : ℕ → PlayerData) (uuid : List ℕ) : Place → Type 0 where
  at_known :
      (i : ℕ)
      → i < max_players
      → same_uuid (players i).uuid uuid ≡ true
      → IsPlace players uuid (known i)
  at_unused :
      (i : ℕ)
      → i < max_players
      → is_unset (players i).uuid ≡ true
      → ((k : ℕ) → k < i → is_unset (players k).uuid ≡ false)
      → ((k : ℕ) → k < i + 1 → same_uuid (players k).uuid uuid ≡ false)
      → IsPlace players uuid (unused i)
  at_nowhere :
      ((k : ℕ) → k < max_players → is_unset (players k).uuid ≡ false)
      → ((k : ℕ) → k < max_players → same_uuid (players k).uuid uuid ≡ false)
      → IsPlace players uuid nowhere

find_place-IsPlace :
    (n i : ℕ) (players : ℕ → PlayerData) (uuid : List ℕ)
    → i + n ≡ max_players
    → ((k : ℕ) → k < i → is_unset (players k).uuid ≡ false)
    → ((k : ℕ) → k < i → same_uuid (players k).uuid uuid ≡ false)
    → IsPlace players uuid (find_place n players uuid i)
unfolding find_place
find_place-IsPlace zero i players uuid size used other =
    at_nowhere (λ k h. used k (omega arith)) (λ k h. other k (omega arith))
find_place-IsPlace (suc n) i players uuid size used other =
    elim (Bool-cases (same_uuid (players i).uuid uuid)) [
      | inl s ↦ rw s (at_known i (omega arith) s)
      | inr s ↦
          let other' = below_suc (λ k. same_uuid (players k).uuid uuid ≡ false) i other s in
          rw s (elim (Bool-cases (is_unset (players i).uuid)) [
            | inl u ↦ rw u (at_unused i (omega arith) u used other')
            | inr u ↦ rw u (
                find_place-IsPlace n (i + 1) players uuid (omega arith)
                  (below_suc (λ k. is_unset (players k).uuid ≡ false) i used u) other')
          ])
    ]

pub whole-IsPlace :
    (players : ℕ → PlayerData) (uuid : List ℕ)
    → IsPlace players uuid (find_place max_players players uuid 0)
whole-IsPlace players uuid =
    find_place-IsPlace max_players 0 players uuid refl (λ k h. absurd (omega arith))
      (λ k h. absurd (omega arith))

find_player-at :
    (n i j : ℕ) (players : ℕ → PlayerData) (fd : ℤ)
    → i ≤ j
    → j < i + n
    → eq_ℤ (players j).client_fd fd ≡ true
    → ((k : ℕ) → k < j → eq_ℤ (players k).client_fd fd ≡ false)
    → find_player n players fd i ≡ some j
unfolding find_player
find_player-at zero i j players fd lo hi at before = absurd (omega arith)
find_player-at (suc n) i j players fd lo hi at before = elim (ℕ_discrete i j) [
  | yes e ↦ rw (e, at) refl
  | no ne ↦
      rw (before i (omega arith))
        (find_player-at n (i + 1) j players fd (omega arith) (omega arith) at before)
]

find_player-none :
    (n i : ℕ) (players : ℕ → PlayerData) (fd : ℤ)
    → ((k : ℕ) → k < i + n → eq_ℤ (players k).client_fd fd ≡ false)
    → find_player n players fd i ≡ none
unfolding find_player
find_player-none zero i players fd h = refl
find_player-none (suc n) i players fd h =
    rw (h i (omega arith)) (find_player-none n (i + 1) players fd (λ k l. h k (omega arith)))

pub get_player-at :
    (players : ℕ → PlayerData) (fd : ℤ) (j : ℕ)
    → j < max_players
    → (players j).client_fd ≡ fd
    → ((k : ℕ) → k < max_players → k ≢ j → (players k).client_fd ≢ fd)
    → get_player_data players fd ≡ some j
unfolding get_player_data
get_player-at players fd j h at others =
    find_player-at max_players 0 j players fd (omega arith) (omega arith)
      ((eq_ℤ_iff (players j).client_fd fd).1 at) (λ k l. not_here k (omega arith) (omega arith))
  where
    not_here : (k : ℕ) → k < max_players → k ≢ j → eq_ℤ (players k).client_fd fd ≡ false
    not_here k l ne = elim (Bool-cases (eq_ℤ (players k).client_fd fd)) [
      | inl t ↦ absurd (others k l ne ((eq_ℤ_iff (players k).client_fd fd).0 t))
      | inr f ↦ f
    ]

pub get_player-none :
    (players : ℕ → PlayerData) (fd : ℤ)
    → ((k : ℕ) → k < max_players → (players k).client_fd ≢ fd)
    → get_player_data players fd ≡ none
unfolding get_player_data
get_player-none players fd h = find_player-none max_players 0 players fd (λ k l.
    elim (Bool-cases (eq_ℤ (players k).client_fd fd)) [
      | inl t ↦ absurd (h k l ((eq_ℤ_iff (players k).client_fd fd).0 t))
      | inr f ↦ f
    ])

found_or_none :
    (n i : ℕ) (players : ℕ → PlayerData) (fd : ℤ)
    → ((find_player n players fd i ≡ none)
        × ((k : ℕ) → i ≤ k → k < i + n → (players k).client_fd ≢ fd))
      ⊎ ((j : ℕ) × (find_player n players fd i ≡ some j)
          × (j < i + n)
          × ((players j).client_fd ≡ fd))
unfolding find_player
found_or_none zero i players fd = inl (refl, λ k h l. absurd (omega arith))
found_or_none (suc n) i players fd = elim (Bool-cases (eq_ℤ (players i).client_fd fd)) [
  | inl t ↦ rw t (inr (i, refl, omega arith, (eq_ℤ_iff (players i).client_fd fd).0 t))
  | inr f ↦ elim (found_or_none n (i + 1) players fd) [
    | inl (e, none_at) ↦
        rw (f, e)
          (inl (
            refl,
            λ k h l. elim (ℕ_discrete i k) [
              | yes same ↦ λ q. cc (
                f,
                (eq_ℤ_iff (players k).client_fd fd).1 q,
                ap (λ x. eq_ℤ (players x).client_fd fd) same,
              )
              | no ne ↦ none_at k (omega arith) (omega arith)
            ],
          ))
    | inr (j, e, l, at) ↦ rw (f, e) (inr (j, refl, omega arith, at))
  ]
]

pub get_player-cases :
    (players : ℕ → PlayerData) (fd : ℤ)
    → ((get_player_data players fd ≡ none)
        × ((k : ℕ) → k < max_players → (players k).client_fd ≢ fd))
      ⊎ ((j : ℕ) × (get_player_data players fd ≡ some j)
          × (j < max_players)
          × ((players j).client_fd ≡ fd))
unfolding get_player_data
get_player-cases players fd = elim (found_or_none max_players 0 players fd) [
  | inl (e, none_at) ↦ inl (e, λ k l. none_at k (omega arith) (omega arith))
  | inr (j, e, l, at) ↦ inr (j, e, omega arith, at)
]
