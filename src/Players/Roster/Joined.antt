-- ===== src/Players/Roster/Joined.antt =====
-- What joining and leaving do to the players.
use macintosh_craft.Base.{
  ℕ, ◌+◌, ◌<◌, ◌≡◌, ◌≢◌, refl, sym, ap, ◌∙◌, true, false, Option, none, some, List, inl, inr, ◌⊎◌,
  arith, leb,
}
use native.Mathlib.Decide.{ℕ_discrete}
use macintosh_craft.Base.Int.{ℤ, negsuc}
use macintosh_craft.Base.Array.{update, update_self, update_ne}
use macintosh_craft.Players.{PlayerData, reset_player_data}
use macintosh_craft.Players.Clients.{max_players, ClientState}
use macintosh_craft.Players.Roster.{
  same_uuid, is_unset, Place, get_player_data, Roster, returning, newcomer, reserve_at,
  reserve_player_data, handle_player_disconnect,
}
use macintosh_craft.Players.Roster.Search.{
  same→eq, eq→same, IsPlace, at_known, at_unused, at_nowhere, whole-IsPlace, get_player-at,
  get_player-none, get_player-cases,
}
use native.Mathlib.Decide.{dec_lt}
use macintosh_craft.Players.Roster.Kept.{IsRoster, replaced-IsRoster}

-- What a player keeps when away.
abbrev pub SameBelongings : PlayerData → PlayerData → Type 0
SameBelongings p q =
    (p.inventory_items ≡ q.inventory_items)
    × (p.inventory_count ≡ q.inventory_count)
    × (p.health ≡ q.health)
    × (p.hunger ≡ q.hunger)
    × (p.saturation ≡ q.saturation)
    × (p.x ≡ q.x)
    × (p.y ≡ q.y)
    × (p.z ≡ q.z)

own_belongings : (p : PlayerData) → SameBelongings p p
own_belongings p = (refl, refl, refl, refl, refl, refl, refl, refl)

module _ (r : Roster) (v : IsRoster r) (fd : ℤ) (uuid name : List ℕ) (named : is_unset uuid ≡ false)
    (fresh : (k : ℕ) → k < max_players → (r.players k).client_fd ≢ fd) where
  -- The three ways it may go.
  pub data Reserves (o : Option Roster) : Type 0 where
    reserves :
        (i : ℕ) (t : Roster)
        → o ≡ some t
        → IsRoster t
        → get_player_data t.players fd ≡ some i
        → (t.players i).uuid ≡ uuid
        → (t.players i).flags.loading ≡ true
        → (i < r.player_data_count → SameBelongings (t.players i) (r.players i))
        → ((k : ℕ) → k ≢ i → t.players k ≡ r.players k)
        → Reserves o
    refuses :
        o ≡ none
        → r.player_data_count ≡ max_players
        → ((k : ℕ) → k < max_players → (r.players k).uuid ≢ uuid)
        → Reserves o

  unlike : (k : ℕ) → same_uuid (r.players k).uuid uuid ≡ false → (r.players k).uuid ≢ uuid
  unlike k f e = cc (f, eq→same (r.players k).uuid uuid e)

  -- A slot with the UUID is in use.
  is_used : (i : ℕ) → i < max_players → (r.players i).uuid ≡ uuid → i < r.player_data_count
  is_used i hi e = elim (dec_lt i r.player_data_count) [
    | yes l ↦ l
    | no l ↦ absurd (cc (v.free i (omega arith) hi, ap is_unset e, named))
  ]

  -- The first slot that was never used is the one behind the used ones.
  first_free :
      (i : ℕ)
      → i < max_players
      → is_unset (r.players i).uuid ≡ true
      → ((k : ℕ) → k < i → is_unset (r.players k).uuid ≡ false)
      → i ≡ r.player_data_count
  first_free i hi u before = elim (dec_lt i r.player_data_count) [
    | yes l ↦ absurd (cc (v.used i l, u))
    | no l ↦ elim (dec_lt r.player_data_count i) [
      | yes g ↦
          let c = r.player_data_count in
          absurd (cc (v.free c (omega arith) (omega arith), before c g))
      | no g ↦ omega arith
    ]
  ]

  reserved :
      (i c : ℕ) (p : PlayerData) (hi : i < max_players)
      → ((c ≡ r.player_data_count) × (i < r.player_data_count) × (p.uuid ≡ (r.players i).uuid))
        ⊎ ((c ≡ r.player_data_count + 1)
            × (i ≡ r.player_data_count)
            × ((k : ℕ) → k < i → (r.players k).uuid ≢ p.uuid))
      → p.uuid ≡ uuid
      → p.client_fd ≡ fd
      → p.flags.loading ≡ true
      → (i < r.player_data_count → SameBelongings p (r.players i))
      → Reserves (some (record { players = update r.players i p; player_data_count = c }))
  reserved i c p hi size u f l keeps =
      let here = update_self r.players i p in
      let there = λ (k : ℕ) (ne : k ≢ i). update_ne r.players {i = i} {j = k} p (λ e. ne (sym e)) in
      reserves i (record { players = update r.players i p; player_data_count = c }) refl
        (replaced-IsRoster r v i c p hi (rw u named) size (inr (λ k h _. rw f (fresh k h))))
        (get_player-at (update r.players i p) fd i hi (rw here f)
          (λ k h ne. rw (there k ne) (fresh k h)))
        (rw here u) (rw here l) (λ h. rw here (keeps h)) there

  reserve_at-Reserves :
      {o : Place} → IsPlace r.players uuid o → Reserves (reserve_at r fd uuid name o)
  unfolding reserve_at reset_player_data
  reserve_at-Reserves (at_known i hi s) =
      let same = same→eq (r.players i).uuid uuid s in
      reserved i r.player_data_count (returning fd name (r.players i)) hi
        (inl (refl, is_used i hi same, refl)) same refl refl (λ _. own_belongings (r.players i))
  reserve_at-Reserves (at_unused i hi u before other) =
      let last = first_free i hi u before in
      let room : leb max_players r.player_data_count ≡ false = ground arith in
      rw room (
        reserved i (r.player_data_count + 1) (newcomer fd uuid name (r.players i)) hi
          (inr (refl, last, λ k h. unlike k (other k (omega arith)))) refl refl refl
          (λ h. absurd (omega arith)))
  reserve_at-Reserves (at_nowhere all other) =
      refuses refl
        (elim (dec_lt r.player_data_count max_players) [
          | yes l ↦ let c = r.player_data_count in absurd (cc (v.free c (omega arith) l, all c l))
          | no l ↦ omega (arith, v.bounded)
        ])
        (λ k h. unlike k (other k h))

  pub reserve-Reserves : Reserves (reserve_player_data r fd uuid name)
  unfolding reserve_player_data
  reserve-Reserves = reserve_at-Reserves (whole-IsPlace r.players uuid)

-- A client with a UUID that is not all zeros joins, on a descriptor that no player has, while the
-- slots are in order. The client is then found with that
-- UUID, as loading, all other slots are as they were, and a known player has kept inventory, health,
-- food and place. Otherwise the call fails, and then all slots are taken and none has the UUID. The
-- order of the slots is kept.
pub reserve_player_data-law :
    (r : Roster) (fd : ℤ) (uuid name : List ℕ)
    → IsRoster r
    → is_unset uuid ≡ false
    → ((k : ℕ) → k < max_players → (r.players k).client_fd ≢ fd)
    → ((i : ℕ) × (t : Roster) × (reserve_player_data r fd uuid name ≡ some t)
        × IsRoster t
        × (get_player_data t.players fd ≡ some i)
        × ((t.players i).uuid ≡ uuid)
        × ((t.players i).flags.loading ≡ true)
        × (i < r.player_data_count → SameBelongings (t.players i) (r.players i))
        × ((k : ℕ) → k ≢ i → t.players k ≡ r.players k))
      ⊎ ((reserve_player_data r fd uuid name ≡ none)
          × (r.player_data_count ≡ max_players)
          × ((k : ℕ) → k < max_players → (r.players k).uuid ≢ uuid))
reserve_player_data-law r fd uuid name v named fresh =
    elim (reserve-Reserves r v fd uuid name named fresh) [
      | reserves i t e w g u l keeps others ↦ inl (i, t, e, w, g, u, l, keeps, others)
      | refuses e c other ↦ inr (e, c, other)
    ]

-- A player whose client is gone.
abbrev gone : Roster → ℕ → PlayerData
gone r i = record (r.players i) { client_fd = negsuc 0 }

module _ (r : Roster) (fd : ℤ) (v : IsRoster r) (real : fd ≢ negsuc 0) (i : ℕ)
    (hi : i < max_players) (at : (r.players i).client_fd ≡ fd) where
  abbrev left : Roster
  left = record { players = update r.players i (gone r i); player_data_count = r.player_data_count }

  is_playing : i < r.player_data_count
  is_playing = elim (dec_lt i r.player_data_count) [
    | yes l ↦ l
    | no l ↦ absurd (real (sym at ∙ v.idle i (omega arith) hi))
  ]

  left-IsRoster : IsRoster left
  left-IsRoster =
      replaced-IsRoster r v i r.player_data_count (gone r i) hi (v.used i is_playing)
        (inl (refl, is_playing, refl)) (inl refl)

  nobody_left : (k : ℕ) → k < max_players → (left.players k).client_fd ≢ fd
  nobody_left k h e = elim (ℕ_discrete k i) [
    | yes same ↦ real (sym (rw (same, update_self r.players i (gone r i)) at e))
    | no ne ↦
        let there = update_ne r.players {i = i} {j = k} (gone r i) (λ q. ne (sym q)) in
        ne (v.online k i h hi (rw there at e ∙ sym at) (λ off. real (sym (rw there at e) ∙ off)))
  ]

  left_same :
      (k : ℕ)
      → ((left.players k).uuid ≡ (r.players k).uuid) × SameBelongings (left.players k) (r.players k)
  left_same k = elim (ℕ_discrete k i) [
    | yes same ↦ rw (same, update_self r.players i (gone r i)) (refl, own_belongings (r.players i))
    | no ne ↦
        rw (update_ne r.players {i = i} {j = k} (gone r i) (λ q. ne (sym q)))
          (refl, own_belongings (r.players k))
  ]

-- After `handlePlayerDisconnect` of a descriptor other than -1, while the slots are in order, no player has the client's descriptor, whether one had it or not,
-- every player has kept UUID, inventory, health, food and place, and the order of the slots is kept.
pub handle_player_disconnect-gone :
    (r : Roster) (states : ℕ → ClientState) (fd : ℤ)
    → IsRoster r
    → fd ≢ negsuc 0
    → let t = (handle_player_disconnect r states fd).roster in
      IsRoster t
      × (get_player_data t.players fd ≡ none)
      × ((k : ℕ)
          → ((t.players k).uuid ≡ (r.players k).uuid) × SameBelongings (t.players k) (r.players k))
unfolding handle_player_disconnect
handle_player_disconnect-gone r states fd v real = elim (get_player-cases r.players fd) [
  | inl (e, none_at) ↦
      rw (e, handle_player_disconnect) (v, e, λ k. (refl, own_belongings (r.players k)))
  | inr (i, e, hi, at) ↦
      rw (e, handle_player_disconnect)
        (
          left-IsRoster r fd v real i hi at,
          get_player-none (left r fd v real i hi at).players fd (nobody_left r fd v real i hi at),
          left_same r fd v real i hi at,
        )
]
