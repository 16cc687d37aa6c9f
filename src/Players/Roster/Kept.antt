-- ===== src/Players/Roster/Kept.antt =====
-- The order that `player_data` keeps, and the replacement of one of its slots.
use macintosh_craft.Base.{ℕ, ◌+◌, ◌≤◌, ◌<◌, ◌≡◌, ◌≢◌, sym, ◌∙◌, true, false, inl, inr, ◌⊎◌, arith}
use native.Mathlib.Decide.{ℕ_discrete}
use macintosh_craft.Base.Int.{negsuc}
use macintosh_craft.Base.Array.{update, update_self, update_ne}
use macintosh_craft.Players.{PlayerData}
use macintosh_craft.Players.Clients.{max_players}
use macintosh_craft.Players.Roster.{is_unset, Roster}

-- The used slots come first and are counted, each player has one slot, and each client one player.
pub record IsRoster (r : Roster) : Type 0 where
  pub bounded : r.player_data_count ≤ max_players
  pub used : (i : ℕ) → i < r.player_data_count → is_unset (r.players i).uuid ≡ false
  pub free :
      (i : ℕ) → r.player_data_count ≤ i → i < max_players → is_unset (r.players i).uuid ≡ true
  pub idle :
      (i : ℕ) → r.player_data_count ≤ i → i < max_players → (r.players i).client_fd ≡ negsuc 0
  pub distinct :
      (i j : ℕ)
      → i < r.player_data_count
      → j < r.player_data_count
      → (r.players i).uuid ≡ (r.players j).uuid
      → i ≡ j
  pub online :
      (i j : ℕ)
      → i < max_players
      → j < max_players
      → (r.players i).client_fd ≡ (r.players j).client_fd
      → (r.players i).client_fd ≢ negsuc 0
      → i ≡ j

-- One slot is replaced: either a used one, by the same player, or the first free one.
module _ (r : Roster) (v : IsRoster r) (i c : ℕ) (p : PlayerData) (small : i < max_players)
    (named : is_unset p.uuid ≡ false)
    (size : ((c ≡ r.player_data_count) × (i < r.player_data_count) × (p.uuid ≡ (r.players i).uuid))
      ⊎ ((c ≡ r.player_data_count + 1)
          × (i ≡ r.player_data_count)
          × ((k : ℕ) → k < i → (r.players k).uuid ≢ p.uuid)))
    (fresh : (p.client_fd ≡ negsuc 0)
      ⊎ ((k : ℕ) → k < max_players → k ≢ i → (r.players k).client_fd ≢ p.client_fd)) where
  abbrev pub replaced : Roster
  replaced = record { players = update r.players i p; player_data_count = c }

  pub here : replaced.players i ≡ p
  here = update_self r.players i p

  pub there : (k : ℕ) → k ≢ i → replaced.players k ≡ r.players k
  there k ne = update_ne r.players {i = i} {j = k} p (λ e. ne (sym e))

  other_uuid : (k : ℕ) → k < c → k ≢ i → (r.players k).uuid ≢ p.uuid
  other_uuid k h ne e = elim size [
    | inl (sc, si, su) ↦ ne (v.distinct k i (omega arith) si (e ∙ su))
    | inr (sc, si, su) ↦ su k (omega arith) e
  ]

  not_mine :
      (k : ℕ)
      → k < max_players
      → k ≢ i
      → (r.players k).client_fd ≡ p.client_fd
      → ¬ (p.client_fd ≢ negsuc 0)
  not_mine k h ne e real = elim fresh [ inl off ↦ real off | inr f ↦ f k h ne e ]

  one_player :
      (a b : ℕ)
      → a < max_players
      → b < max_players
      → (replaced.players a).client_fd ≡ (replaced.players b).client_fd
      → (replaced.players a).client_fd ≢ negsuc 0
      → a ≡ b
  one_player a b ha hb e real = elim (ℕ_discrete a i) [
    | yes ai ↦ elim (ℕ_discrete b i) [
      | yes bi ↦ ai ∙ sym bi
      | no bi ↦
          absurd (not_mine b hb bi (sym (rw (ai, here, there b bi) at e)) (rw (ai, here) at real))
    ]
    | no ai ↦ elim (ℕ_discrete b i) [
      | yes bi ↦
          let same = rw (bi, here, there a ai) at e in
          absurd (not_mine a ha ai same (λ off. real (rw (there a ai) (same ∙ off))))
      | no bi ↦ v.online a b ha hb (rw (there a ai, there b bi) at e) (rw (there a ai) at real)
    ]
  ]

  pub replaced-IsRoster : IsRoster replaced
  replaced-IsRoster = record {
    bounded = omega (arith, v.bounded, size);
    used = λ k h. elim (ℕ_discrete k i) [
      | yes e ↦ rw (e, here) named
      | no ne ↦ rw (there k ne) (v.used k (omega (arith, size)))
    ];
    free = λ k h l. rw (there k (omega (arith, size))) (v.free k (omega (arith, size)) l);
    idle = λ k h l. rw (there k (omega (arith, size))) (v.idle k (omega (arith, size)) l);
    distinct = λ a b ha hb e. elim (ℕ_discrete a i) [
      | yes ai ↦ elim (ℕ_discrete b i) [
        | yes bi ↦ ai ∙ sym bi
        | no bi ↦ absurd (other_uuid b hb bi (sym (rw (ai, here, there b bi) at e)))
      ]
      | no ai ↦ elim (ℕ_discrete b i) [
        | yes bi ↦ absurd (other_uuid a ha ai (rw (bi, here, there a ai) at e))
        | no bi ↦
            v.distinct a b (omega (arith, size)) (omega (arith, size))
              (rw (there a ai, there b bi) at e)
      ]
    ];
    online = one_player;
  }
