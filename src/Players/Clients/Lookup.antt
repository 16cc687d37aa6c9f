-- ===== src/Players/Clients/Lookup.antt =====
-- What is read from the states of clients after a write, procedures.c.
use macintosh_craft.Base.{
  ℕ, zero, suc, ◌+◌, ◌≤◌, ◌<◌, ◌≡◌, ◌≢◌, refl, sym, ap, ◌∙◌, true, false, Bool-cases, Option-cases,
  inl, inr, ◌⊎◌, arith, some, none, if◌then◌else◌,
}
use native.Mathlib.Decide.{ℕ_discrete}
use macintosh_craft.Base.Int.{ℤ, pos, negsuc, eq_ℤ, eq_ℤ_iff}
use macintosh_craft.Base.Array.{update, update_self, update_ne}
use macintosh_craft.Players.Clients.{
  ClientState, max_players, find_client, set_client_state, get_client_state,
}

some_eq : {a b : ℕ} → some a ≡ some b → a ≡ b
some_eq e = cc

-- The search looks at the descriptors alone.
find_congr :
    (n : ℕ) (a b : ℕ → ClientState) (q : ℤ) (i : ℕ)
    → ((k : ℕ) → eq_ℤ (a k).client_fd q ≡ eq_ℤ (b k).client_fd q)
    → find_client n a q i ≡ find_client n b q i
unfolding find_client
find_congr zero a b q i h = refl
find_congr (suc n) a b q i h = rw (h i, find_congr n a b q (i + 1) h) refl

find_sound :
    (n : ℕ) (a : ℕ → ClientState) (q : ℤ) (i j : ℕ)
    → find_client n a q i ≡ some j
    → (eq_ℤ (a j).client_fd q ≡ true) × (i ≤ j) × (j < i + n)
unfolding find_client
find_sound zero a q i j e = absurd (cc)
find_sound (suc n) a q i j e = elim (Bool-cases (eq_ℤ (a i).client_fd q)) [
  | inl t ↦ let here : i ≡ j = some_eq (rw t at e) in (rw (← here) t, omega arith, omega arith)
  | inr t ↦ let (x, y, z) = find_sound n a q (i + 1) j (rw t at e) in (x, omega arith, omega arith)
]

-- A client that has no slot is found at the slot it is given.
find_new :
    (n : ℕ) (a : ℕ → ClientState) (q : ℤ) (i j : ℕ) (e : ClientState)
    → find_client n a q i ≡ none
    → i ≤ j
    → j < i + n
    → e.client_fd ≡ q
    → find_client n (update a j e) q i ≡ some j
unfolding find_client
find_new zero a q i j e absent lo hi h = absurd (omega arith)
find_new (suc n) a q i j e absent lo hi h = elim (Bool-cases (eq_ℤ (a i).client_fd q)) [
  | inl t ↦ absurd (cc (rw t at absent))
  | inr t ↦ elim (ℕ_discrete j i) [
    | yes here ↦
        let at : update a j e i ≡ e = rw (← here) (update_self a j e) in
        let found : eq_ℤ (update a j e i).client_fd q ≡ true = rw (at, h) ((eq_ℤ_iff q q).1 refl) in
        rw found (ap some (sym here))
    | no ne ↦
        let found : eq_ℤ (update a j e i).client_fd q ≡ false = rw (update_ne a e ne) t in
        rw found (find_new n a q (i + 1) j e (rw t at absent) (omega arith) (omega arith) h)
  ]
]

get_found :
    (b : ℕ → ClientState) (q : ℤ) (i : ℕ)
    → find_client max_players b q 0 ≡ some i
    → get_client_state b q ≡ (b i).state
unfolding get_client_state
get_found b q i e = rw (e, get_client_state) refl

get_absent :
    (b : ℕ → ClientState) (q : ℤ)
    → find_client max_players b q 0 ≡ none
    → get_client_state b q ≡ pos 0
unfolding get_client_state
get_absent b q e = rw (e, get_client_state) refl

-- A write to another slot than the one that is read, which leaves the search alone.
get_same :
    (a : ℕ → ClientState) (q : ℤ) (j : ℕ) (e : ClientState)
    → eq_ℤ (a j).client_fd q ≡ false
    → eq_ℤ e.client_fd q ≡ false
    → get_client_state (update a j e) q ≡ get_client_state a q
get_same a q j e old new =
    let same = find_congr max_players (update a j e) a q 0 (λ k. same_test k) in
    elim (Option-cases (find_client max_players a q 0)) [
      | inl f ↦ get_absent (update a j e) q (same ∙ f) ∙ sym (get_absent a q f)
      | inr (k, f) ↦
          let (t, _, _) = find_sound max_players a q 0 k f in
          let far : j ≢ k = λ r. absurd (cc (ap (λ n. eq_ℤ (a n).client_fd q) r, old, t)) in
          get_found (update a j e) q k (same ∙ f)
          ∙ ap (λ x. x.state) (update_ne a e far)
          ∙ sym (get_found a q k f)
    ]
  where
    same_test : (k : ℕ) → eq_ℤ (update a j e k).client_fd q ≡ eq_ℤ (a k).client_fd q
    same_test k = elim (ℕ_discrete j k) [
      | yes r ↦ rw (← r, update_self a j e, old, new) refl
      | no r ↦ rw (update_ne a e r) refl
    ]

-- A write to the slot that is found then.
get_here :
    (a : ℕ → ClientState) (q : ℤ) (j : ℕ) (e : ClientState)
    → find_client max_players (update a j e) q 0 ≡ some j
    → get_client_state (update a j e) q ≡ e.state
get_here a q j e f = get_found (update a j e) q j f ∙ ap (λ x. x.state) (update_self a j e)

different : (a b : ℤ) → a ≢ b → eq_ℤ b a ≡ false
different a b ne = elim (Bool-cases (eq_ℤ b a)) [
  | inl t ↦ absurd (ne (sym ((eq_ℤ_iff b a).0 t)))
  | inr t ↦ t
]

module _ (a : ℕ → ClientState) (fd q new_state : ℤ) where
  -- The client has slot `j`.
  set_existing :
      (j : ℕ)
      → find_client max_players a fd 0 ≡ some j
      → get_client_state (set_client_state a fd new_state) q
        ≡ (if eq_ℤ fd q then new_state else get_client_state a q)
  unfolding set_client_state
  set_existing j f =
      let e : ClientState = record { client_fd = (a j).client_fd; state = new_state } in
      let (t, _, _) = find_sound max_players a fd 0 j f in
      let at = (eq_ℤ_iff (a j).client_fd fd).0 t in
      let same = find_congr max_players (update a j e) a q 0 (λ k. same_test k) in
      rw (f, set_client_state)
        (elim (Bool-cases (eq_ℤ fd q)) [
          | inl here ↦
              let r = (eq_ℤ_iff fd q).0 here in rw here (get_here a q j e (same ∙ rw r at f))
          | inr far ↦ rw far (get_same a q j e (rw at far) (rw at far))
        ])
    where
      same_test :
          (k : ℕ)
          → eq_ℤ
              (update a j (record { client_fd = (a j).client_fd; state = new_state }) k).client_fd
              q
            ≡ eq_ℤ (a k).client_fd q
      same_test k = elim (ℕ_discrete j k) [
        | yes r ↦ rw (← r, update_self a j _) refl
        | no r ↦ rw (update_ne a _ r) refl
      ]

  -- The client is given the free slot `j`.
  set_new :
      (j : ℕ)
      → find_client max_players a fd 0 ≡ none
      → find_client max_players a (negsuc 0) 0 ≡ some j
      → q ≢ negsuc 0
      → get_client_state (set_client_state a fd new_state) q
        ≡ (if eq_ℤ fd q then new_state else get_client_state a q)
  unfolding set_client_state
  set_new j f g real =
      let e : ClientState = record { client_fd = fd; state = new_state } in
      let (t, lo, hi) = find_sound max_players a (negsuc 0) 0 j g in
      let at = (eq_ℤ_iff (a j).client_fd (negsuc 0)).0 t in
      rw (f, g, set_client_state)
        (elim (Bool-cases (eq_ℤ fd q)) [
          | inl here ↦
              let r = (eq_ℤ_iff fd q).0 here in
              rw here (get_here a q j e (find_new max_players a q 0 j e (rw r at f) lo hi r))
          | inr far ↦ rw far (get_same a q j e (rw at (different q (negsuc 0) real)) far)
        ])

-- Where the client has a slot, or one is free, setting its state is seen when the state is read, and
-- what is read for every other client stays as it was. The descriptor -1 is no client.
pub get-set_client_state :
    (a : ℕ → ClientState) (fd q new_state : ℤ) (j : ℕ)
    → q ≢ negsuc 0
    → (find_client max_players a fd 0 ≡ some j) ⊎ (find_client max_players a (negsuc 0) 0 ≡ some j)
    → get_client_state (set_client_state a fd new_state) q
      ≡ (if eq_ℤ fd q then new_state else get_client_state a q)
get-set_client_state a fd q new_state j real (inl f) = set_existing a fd q new_state j f
get-set_client_state a fd q new_state j real (inr g) =
    elim (Option-cases (find_client max_players a fd 0)) [
      | inl f ↦ set_new a fd q new_state j f g real
      | inr (k, f) ↦ set_existing a fd q new_state k f
    ]
