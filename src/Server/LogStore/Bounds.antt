-- ===== src/Server/LogStore/Bounds.antt =====
-- crates/server/src/logstore.rs: the bounds that the store keeps of its entries.
use raft_kv_engine_project.Base.{
  ◌+◌, ◌-◌, ◌^◌, ◌≤◌, ◌<◌, ◌≡◌, refl, sym, ap, subst, leb, ◌&&◌, Bool-cases, ◌∙◌, ◌⊎◌, inl, inr,
  Bool, true, false, ◌||◌, Option, none, some, List, [], ◌∷◌, arith, ltb, ◌==◌, if◌then◌else◌,
  get_elem?, length, get_elem?_beyond, get_elem?_within,
}
use raft_kv_engine_project.Base.Bytes.{Bytes}
use raft_kv_engine_project.Raft.Types.{Entry, HardState, Snapshot, Index}
use raft_kv_engine_project.Raft.Log.Contiguous.{Contiguous}
use raft_kv_engine_project.Storage.Error.{Result, ok, ◌>>=◌}
use raft_kv_engine_project.Server.LogStore.{
  Engine, Codec, LogStore, last_of, install, append, persist_batch, persist,
}
use raft_kv_engine_project.Server.LogStore.Writes.{or_old}
use raft_kv_engine_project.Server.LogStore.Contents.{
  entry_at, IsBounded, kept, replaced, out_of_bounds, persist-entry_at,
}

last_of-Contiguous :
    (base : Index) (e : Entry) (es : List Entry)
    → Contiguous base (e ∷ es)
    → last_of e es ≡ base + length (e ∷ es)
unfolding last_of
last_of-Contiguous base e [] c = omega (arith, c.0)
last_of-Contiguous base e (x ∷ es) c = omega (arith, last_of-Contiguous (base + 1) x es c.1)

-- The lowest index after entries from `f` on were put.
abbrev lowest : Index → Index → Index
lowest first f = if first == 0 || ltb f first then f else first

lowest_lem :
    (first f : Index)
    → (lowest first f ≤ f) × ((first ≡ 0) ⊎ (lowest first f ≤ first)) × (0 < f → 0 < lowest first f)
lowest_lem first f = choose (first == 0) (ltb f first) refl refl
  where
    choose :
        (a b : Bool)
        → (first == 0) ≡ a
        → ltb f first ≡ b
        → ((if a || b then f else first) ≤ f)
          × ((first ≡ 0) ⊎ ((if a || b then f else first) ≤ first))
          × (0 < f → 0 < (if a || b then f else first))
    choose true b ha hb = (omega arith, inl (ground (arith, ha)), λ p. p)
    choose false true ha hb = (omega arith, inr (ground (arith, hb)), λ p. p)
    choose false false ha hb = (ground (arith, hb), inr (omega arith), λ p. ground (arith, ha))

module _ (engine : Engine) (codec : Codec) where
  -- What bounds say of the value at an index.
  abbrev Outside : LogStore engine codec → Index → Option Bytes → Type 0
  Outside t i old = (i < t.first_index) ⊎ (t.last_index < i) → old ≡ none

  append-Outside :
      (t : LogStore engine codec) (es : List Entry) (base i : Index) (old : Option Bytes)
      → 0 < i
      → (t.first_index ≡ 0 → t.last_index ≡ 0)
      → Contiguous base es
      → Outside t i old
      → Outside (append engine codec t es).1 i (replaced engine codec es i old)
  unfolding append
  append-Outside t [] base i old low empty c h o = h o
  append-Outside t (e ∷ es) base i old low empty c h o = split o
    where
      split :
          (i < lowest t.first_index e.index) ⊎ (last_of e es < i)
          → replaced engine codec (e ∷ es) i old ≡ none
      split (inl below) =
          let (upto, lower, _) = lowest_lem t.first_index e.index in
          let yes : ltb i e.index ≡ true = ground (arith, below, upto) in
          rw yes (
            h (elim lower [
              | inl zero_first ↦ inr (omega (arith, empty zero_first, low))
              | inr less ↦ inl (omega (arith, below, less))
            ]))
      split (inr beyond) =
          let last = last_of-Contiguous base e es c in
          let no : ltb i e.index ≡ false = ground (arith, beyond, last, c.0) in
          let nothing : get_elem? (e ∷ es) (i - e.index) ≡ none =
            get_elem?_beyond (e ∷ es) (i - e.index) (omega (arith, beyond, last, c.0)) in
          rw no (ap (λ x. or_old engine codec x none) nothing)

  -- What bounds are to each other.
  abbrev InOrder : LogStore engine codec → Type 0
  InOrder t =
      (t.first_index ≡ 0 → t.last_index ≡ 0)
      × (t.first_index ≤ t.last_index)
      × (t.last_index < 2 ^ 64)

  append-InOrder :
      (t : LogStore engine codec) (es : List Entry) (base : Index)
      → Contiguous base es
      → base + length es < 2 ^ 64
      → InOrder t
      → InOrder (append engine codec t es).1
  unfolding append
  append-InOrder t [] base c fits h = h
  append-InOrder t (e ∷ es) base c fits (empty, ordered, small) =
      let (upto, lower, positive) = lowest_lem t.first_index e.index in
      let last = last_of-Contiguous base e es c in
      (
        λ z. absurd (omega (arith, z, positive (omega (arith, c.0)))),
        omega (arith, upto, last, c.0),
        omega (arith, last, fits),
      )

  install-InOrder :
      (t : LogStore engine codec) (o : Option Snapshot)
      → InOrder t
      → InOrder (install engine codec t o).1
  unfolding install
  install-InOrder t none h = h
  install-InOrder t (some snap) h = (λ z. refl, omega arith, omega arith)

  -- Between bounds there is a value.
  abbrev Inside : LogStore engine codec → Index → Option Bytes → Type 0
  Inside t i old = t.first_index ≤ i → i ≤ t.last_index → (b : Bytes) × (old ≡ some b)

  append-Inside :
      (t : LogStore engine codec) (es : List Entry) (base i : Index) (old : Option Bytes)
      → 0 < i
      → t.first_index ≤ t.last_index
      → Contiguous base es
      → (t.last_index ≡ 0) ⊎ (base ≤ t.last_index)
      → Inside t i old
      → Inside (append engine codec t es).1 i (replaced engine codec es i old)
  unfolding append
  append-Inside t [] base i old low ordered c joins h above under = h above under
  append-Inside t (e ∷ es) base i old low ordered c joins h above under =
      elim (Bool-cases (ltb i e.index)) [
        | inl before ↦
            let (first, last) = within (ground (arith, before)) in
            let (b, found) = h first last in (b, rw before found)
        | inr here ↦
            let last = last_of-Contiguous base e es c in
            let (x, found) =
              get_elem?_within (e ∷ es) (i - e.index) (ground (arith, here, under, last, c.0)) in
            (codec.ser_entry x, rw (here, found) refl)
      ]
    where
      within : i < e.index → (t.first_index ≤ i) × (i ≤ t.last_index)
      within before = elim (Bool-cases (t.first_index == 0 || ltb e.index t.first_index)) [
        | inl lowered ↦ absurd (
            omega (
              arith,
              before,
              subst (λ (b : Bool). (if b then e.index else t.first_index) ≤ i) lowered above,
            ))
        | inr stays ↦
            let first : t.first_index ≤ i =
              subst (λ (b : Bool). (if b then e.index else t.first_index) ≤ i) stays above in
            let positive : 0 < t.first_index = ground (arith, stays) in
            (
              first,
              elim joins [
                | inl empty ↦ absurd (omega (arith, empty, ordered, positive))
                | inr reaches ↦ omega (arith, reaches, before, c.0)
              ],
            )
      ]

  module _ (s : LogStore engine codec) (v : IsBounded engine codec s) where
    -- What the engine holds at an index: it reads without an error.
    value_at :
        (i : Index)
        → 0 < i
        → i < 2 ^ 64
        → (old : Option Bytes) × (entry_at engine codec s i ≡ ok old) × Inside s i old
    value_at i low hi = elim (Bool-cases (leb s.first_index i && leb i s.last_index)) [
      | inl between ↦
          let (b, held) = v.inside i low (ground (arith, between)) (ground (arith, between)) in
          (some b, held, λ above under. (b, refl))
      | inr beyond ↦ (
        none,
        v.outside i low hi (outer beyond),
        λ above under. absurd (ground (arith, beyond, above, under)),
      )
    ]
      where
        outer :
            (leb s.first_index i && leb i s.last_index) ≡ false
            → (i < s.first_index) ⊎ (s.last_index < i)
        outer b = elim (Bool-cases (leb s.first_index i)) [
          | inl above ↦ inr (ground (arith, b, above))
          | inr below ↦ inl (ground (arith, below))
        ]

    -- `persist` keeps the bounds right: it ends without an error, entries stand at every index between
    -- them and at no other one, the upper bound is 0 where the lower one is, and they are in order. The
    -- bounds were right before, the engine accepts the batch, its entries follow one another, the first of
    -- them comes at most one index after the last one of the store if any is left after an installed
    -- snapshot, and their indices have 64 bits.
    pub persist-IsBounded :
        (hs : Option HardState) (es : List Entry) (snapshot : Option Snapshot) (base : Index)
        → Contiguous base es
        → base + length es < 2 ^ 64
        → ((install engine codec s snapshot).1.last_index ≡ 0)
          ⊎ (base ≤ (install engine codec s snapshot).1.last_index)
        → engine.Accepts s.db (persist_batch engine codec s hs es snapshot).0
        → (s' : LogStore engine codec) × (persist engine codec s hs es snapshot ≡ ok s')
          × IsBounded engine codec s'
    unfolding persist_batch install
    persist-IsBounded hs es snapshot base c fits joins accepts =
        let (s', persists, same_first, same_last, entries) =
          persist-entry_at engine codec s v hs es snapshot base c fits accepts in
        let after = (append engine codec (install engine codec s snapshot).1 es).1 in
        (
          s',
          persists,
          record {
            outside = λ i low hi o.
                let (old, held, _) = value_at i low hi in
                entries i low hi
                ∙ (ap (read_over i) held
                    ∙ ap (λ (o : Option Bytes). ok o)
                        (outside_of snapshot i low hi old held (elim o [
                          | inl below ↦ inl (omega (arith, below, same_first))
                          | inr above ↦ inr (omega (arith, above, same_last))
                        ])));
            inside = λ i low above under.
                let hi : i < 2 ^ 64 = omega (arith, under, same_last, numbers.2) in
                let (old, held, inner) = value_at i low hi in
                let (b, found) =
                  append-Inside (install engine codec s snapshot).1 es base i
                    (kept engine codec snapshot old) low
                    (install-InOrder s snapshot (v.empty, v.ordered, v.fits)).1 c joins
                    (inside_of snapshot i old low inner) (omega (arith, above, same_first))
                    (omega (arith, under, same_last)) in
                (
                  b,
                  entries i low hi
                      ∙ (ap (read_over i) held ∙ ap (λ (o : Option Bytes). ok o) found),
                );
            empty = λ z. same_last ∙ numbers.0 (sym same_first ∙ z);
            ordered = omega (arith, numbers.1, same_first, same_last);
            fits = omega (arith, numbers.2, same_last);
          },
        )
      where
        read_over : Index → Result (Option Bytes) → Result (Option Bytes)
        read_over i r =
            r >>= λ old. ok (replaced engine codec es i (kept engine codec snapshot old))

        numbers : InOrder (append engine codec (install engine codec s snapshot).1 es).1
        numbers =
            append-InOrder (install engine codec s snapshot).1 es base c fits
              (install-InOrder s snapshot (v.empty, v.ordered, v.fits))

        inside_of :
            (o : Option Snapshot) (i : Index) (old : Option Bytes)
            → 0 < i
            → Inside s i old
            → Inside (install engine codec s o).1 i (kept engine codec o old)
        inside_of none i old low inner = λ above under. inner above under
        inside_of (some snap) i old low inner = λ above under. absurd (omega (arith, low, under))

        outside_of :
            (o : Option Snapshot) (i : Index)
            → 0 < i
            → i < 2 ^ 64
            → (old : Option Bytes) → entry_at engine codec s i ≡ ok old
            → Outside
                (append engine codec (install engine codec s o).1 es).1
                i
                (replaced engine codec es i (kept engine codec o old))
        outside_of none i low hi old held =
            append-Outside s es base i old low v.empty c
              (out_of_bounds engine codec s v i low hi old held)
        outside_of (some snap) i low hi old held =
            append-Outside (record s { first_index = 0; last_index = 0 }) es base i none low
              (λ z. refl) c (λ o. refl)
