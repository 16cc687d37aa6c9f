-- ===== src/Disk/Restart.antt =====
-- What is read back after a restart.
use macintosh_craft.Base.{
  ℕ, zero, suc, ◌+◌, ◌≤◌, ◌<◌, ◌≡◌, ◌≢◌, refl, sym, ◌∙◌, true, false, some, inl, inr, arith,
  Bool-cases, ltb, leb, ◌==◌, if◌then◌else◌,
}
use macintosh_craft.World.Changes.{
  BlockChange, Changes, Place, gap, max_block_changes, get_loop, get_block_change,
}
use macintosh_craft.World.Changes.Blank.{IsBlank}
use macintosh_craft.Players.{PlayerData}
use macintosh_craft.Disk.{
  WorldFile, Stdio, Memory, write_all_data_to_disk, recover_count, init_serializer,
}
use macintosh_craft.Disk.Saved.{
  IsWorking, write_all_data_to_disk-entries, write_all_data_to_disk-players,
}

add_fifteen : (i : ℕ) → i + 14 + 1 ≡ i + 15
add_fifteen i = omega arith

module _ (chest : ℕ) (solid : chest ≢ gap) (e : ℕ → BlockChange) where
  recover_count-grows : (n i c : ℕ) → c ≤ recover_count n chest e i c
  unfolding recover_count
  recover_count-grows zero i c = omega arith
  recover_count-grows (suc n) i c =
      let b = (e i).block in
      let last : ℕ = if b == chest then i + 14 else i in
      let next : ℕ = if b == gap then i + 1 else last + 1 in
      let c' : ℕ = if b == gap then c else if leb c last then last + 1 else c in
      let rest = recover_count-grows n next c' in
      elim (Bool-cases (leb max_block_changes i)) [
        | inl t ↦ rw t (omega arith)
        | inr t ↦ rw t (grind arith)
      ]

  module _ (p : Place) where
    get_loop-behind : (f : ℕ) (t : Changes) (i : ℕ) → t.count ≤ i → get_loop chest f t p i ≡ gap
    unfolding get_loop
    get_loop-behind zero t i h = refl
    get_loop-behind (suc f) t i h = ground arith

    -- More fuel than entries finds the same.
    enough_fuel :
        (f g : ℕ) (t : Changes) (i : ℕ)
        → t.count ≤ i + f
        → t.count ≤ i + g
        → get_loop chest f t p i ≡ get_loop chest g t p i
    unfolding get_loop
    enough_fuel zero g t i hf hg = sym (get_loop-behind g t i (omega arith))
    enough_fuel (suc f) zero t i hf hg = get_loop-behind (suc f) t i (omega arith)
    enough_fuel (suc f) (suc g) t i hf hg =
        let b = (t.entries i).block in
        let next : ℕ = if b == gap then i + 1 else if b == chest then i + 15 else i + 1 in
        ground (arith, enough_fuel f g t next)

    get_loop-gaps :
        (n i c : ℕ)
        → ((j : ℕ) → c ≤ j → j < max_block_changes → (e j).block ≡ gap)
        → c ≤ i
        → get_loop chest n (record { entries = e; count = max_block_changes }) p i ≡ gap
    unfolding get_loop
    get_loop-gaps zero i c gaps h = refl
    get_loop-gaps (suc n) i c gaps h = ground (arith, gaps i, get_loop-gaps n (i + 1) c gaps)

    -- Looking through the whole array finds what looking as far as the recovered count does.
    get_loop-recovered :
        (n f i c r : ℕ)
        → r ≡ recover_count n chest e i c
        → c ≤ i
        → max_block_changes ≤ i + n
        → r ≤ i + f
        → get_loop chest f (record { entries = e; count = r }) p i
          ≡ get_loop chest n (record { entries = e; count = max_block_changes }) p i
    unfolding get_loop recover_count
    get_loop-recovered zero f i c r count h hn hf =
        get_loop-behind f (record { entries = e; count = r }) i (rw count h)
    get_loop-recovered (suc n) f i c r count h hn hf =
        let t : Changes = record { entries = e; count = r } in
        let b = (e i).block in
        let last : ℕ = if b == chest then i + 14 else i in
        let next : ℕ = if b == gap then i + 1 else last + 1 in
        let c' : ℕ = if b == gap then c else if leb c last then last + 1 else c in
        enough_fuel f (suc f) t i hf (omega arith) ∙ elim (Bool-cases (leb max_block_changes i)) [
          | inl full ↦
              let small : ltb i max_block_changes ≡ false = ground arith in
              rw (small, get_loop-behind (suc f) t i (rw (count, full) h)) refl
          | inr room ↦
              let count' : r ≡ recover_count n chest e next c' = rw room at count in
              let rest =
                get_loop-recovered n f next c' r count' (ground arith) (ground arith)
                  (ground arith) in
              let least : c' ≤ r = rw count' (recover_count-grows n next c') in
              elim (Bool-cases (b == gap)) [
                | inl g ↦
                    let rest_g = rw g at rest in ground (arith, rest_g, get_loop-behind f t (i + 1))
                | inr live ↦
                    let inside : i < r = ground arith in
                    elim (Bool-cases (b == chest)) [
                      | inl k ↦
                          let rest_k = rw (live, k, add_fifteen i) at rest in ground (arith, rest_k)
                      | inr k ↦ let rest_k = rw (live, k) at rest in ground (arith, rest_k)
                    ]
              ]
        ]

    -- So does looking as far as the count was, where the rest of the file has gaps.
    get_loop-saved :
        (n f i : ℕ) (s : Changes)
        → ((j : ℕ) → j < s.count → s.entries j ≡ e j)
        → ((j : ℕ) → s.count ≤ j → j < max_block_changes → (e j).block ≡ gap)
        → s.count ≤ max_block_changes
        → max_block_changes ≤ i + n
        → s.count ≤ i + f
        → get_loop chest f s p i
          ≡ get_loop chest n (record { entries = e; count = max_block_changes }) p i
    unfolding get_loop
    get_loop-saved zero f i s same gaps bounded hn hf = get_loop-behind f s i (omega arith)
    get_loop-saved (suc n) f i s same gaps bounded hn hf = elim (Bool-cases (ltb i s.count)) [
      | inr out ↦
          get_loop-behind f s i (ground arith)
          ∙ sym (get_loop-gaps (suc n) i s.count gaps (ground arith))
      | inl inside ↦
          let b = (e i).block in
          let next : ℕ = if b == gap then i + 1 else if b == chest then i + 15 else i + 1 in
          let room : ltb i max_block_changes ≡ true = ground arith in
          let rest = get_loop-saved n f next s same gaps bounded (ground arith) (ground arith) in
          enough_fuel f (suc f) s i hf (omega arith)
          ∙ rw (inside, room, same i (ground arith), rest) refl
    ]

-- A count that is recovered serves the lookups as the one in memory did.
recovered_lookup :
    (chest : ℕ) (s : Changes) (e : ℕ → BlockChange) (p : Place)
    → chest ≢ gap
    → s.count ≤ max_block_changes
    → ((j : ℕ) → j < s.count → s.entries j ≡ e j)
    → IsBlank e s.count
    → get_block_change chest
        (record { entries = e; count = recover_count max_block_changes chest e 0 0 })
        p
      ≡ get_block_change chest s p
unfolding get_block_change
recovered_lookup chest s e p solid bounded same blank =
    let r = recover_count max_block_changes chest e 0 0 in
    get_loop-recovered chest solid e p max_block_changes r 0 0 r refl (omega arith) (omega arith)
      (omega arith)
    ∙ sym (
        get_loop-saved chest solid e p max_block_changes s.count 0 s same blank bounded
          (omega arith) (omega arith))

-- A file whose player data is whole is read as it is.
loaded :
    (io : Stdio) (chest : ℕ) (damaged : (ℕ → PlayerData) → ℕ → PlayerData) (g : WorldFile)
    (fresh : Memory)
    → IsWorking io
    → fresh.changes.count ≡ 0
    → g.overwritten ≡ false
    → init_serializer io chest damaged (some g) fresh
      ≡ some (
        g,
        record {
          changes = record {
            entries = g.entries;
            count = recover_count max_block_changes chest g.entries 0 0;
          };
          players = g.players;
        },
      )
unfolding init_serializer
loaded io chest damaged g fresh w start whole =
    simp (w.reads_entries, w.seeks max_block_changes, w.reads_players, start, whole) refl

-- What was saved from an array that is not full is read back: the players, and at every place what
-- `getBlockChange` found.
pub init_serializer-saved :
    (io : Stdio) (chest : ℕ) (damaged : (ℕ → PlayerData) → ℕ → PlayerData) (f : WorldFile)
    (m fresh : Memory)
    → IsWorking io
    → chest ≢ gap
    → m.changes.count < max_block_changes
    → IsBlank m.changes.entries m.changes.count
    → IsBlank f.entries m.changes.count
    → fresh.changes.count ≡ 0
    → let saved = write_all_data_to_disk io m f in
      (m' : Memory) × (init_serializer io chest damaged (some saved) fresh ≡ some (saved, m'))
      × (m'.players ≡ m.players)
      × ((p : Place) → get_block_change chest m'.changes p ≡ get_block_change chest m.changes p)
init_serializer-saved io chest damaged f m fresh w solid room blank file_blank start =
    let g = write_all_data_to_disk io m f in
    let stored = write_all_data_to_disk-entries io w m f in
    let (players, whole) = write_all_data_to_disk-players io w m f room in
    let same = λ (j : ℕ) (h : j < m.changes.count). sym (stored j room ∙ ground arith) in
    let rest : IsBlank g.entries m.changes.count = λ j h k. rw (stored j room) (blank_if j h k) in
    (
      record {
        changes = record {
          entries = g.entries;
          count = recover_count max_block_changes chest g.entries 0 0;
        };
        players = g.players;
      },
      loaded io chest damaged g fresh w start whole,
      players,
      λ p. recovered_lookup chest m.changes g.entries p solid (omega arith) same rest,
    )
  where
    blank_if :
        (j : ℕ)
        → m.changes.count ≤ j
        → j < max_block_changes
        → (if leb j m.changes.count then m.changes.entries j else f.entries j).block ≡ gap
    blank_if j h k = elim (Bool-cases (leb j m.changes.count)) [
      | inl t ↦ rw t (blank j h k)
      | inr t ↦ rw t (file_blank j h k)
    ]
