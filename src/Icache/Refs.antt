-- ===== src/Icache/Refs.antt =====
-- The references to entries of the cache of inodes, against those that the program holds.
use cs461_hw.Prelude.{
  ap, sym, ◌∙◌, ◌+◌, Bool, ◌==◌, if◌then◌else◌, inl, inr, ℕ_discrete, Bool-cases, ℕ, ◌-◌, ◌<◌, ◌≡◌,
  true, false, some, arith,
}
use cs461_hw.Inode.{out_of_fuel, Inode, State, Result, ok}
use cs461_hw.Icache.{
  free_inode, panic, bind, is_last, Cache, ninode, put_entry, is_for, iget, idup, iput,
}
use cs461_hw.Icache.Search.{shared, recycled, no_entry, iget-Got}

-- The references held to each entry, after one more and after one less.
abbrev pub more : (ℕ → ℕ) → ℕ → ℕ → ℕ
more held i j = if j == i then held j + 1 else held j

abbrev pub less : (ℕ → ℕ) → ℕ → ℕ → ℕ
less held i j = if j == i then held j - 1 else held j

bind_ok :
    (r : Result Inode) (f : Inode → Cache) (c : Cache) (st : State)
    → bind r (λ copy st'. ok (f copy) st') ≡ ok c st
    → (copy : Inode) × (c ≡ f copy)
bind_ok (ok copy st') f c st e = (copy, cc e)
bind_ok (panic st') f c st e = absurd (cc e)
bind_ok out_of_fuel f c st e = absurd (cc e)

module _ (size bmapstart inodestart : ℕ) where
  -- The histories of a cache without references: iget by anyone, idup and iput by holders of a
  -- reference, in any state of the disk, and what a holder does with the flag and the copy, as ilock does.
  pub data Reach (c₀ : Cache) : Cache → (ℕ → ℕ) → Type 0 where
    starts : Reach c₀ c₀ (λ i. 0)
    gets :
        (dev inum i : ℕ) {c c' : Cache} {held : ℕ → ℕ}
        → Reach c₀ c held
        → iget dev inum c ≡ some (c', i)
        → Reach c₀ c' (more held i)
    dups :
        (i : ℕ) {c : Cache} {held : ℕ → ℕ}
        → Reach c₀ c held
        → 0 < held i
        → Reach c₀ (idup c i) (more held i)
    puts :
        (i : ℕ) (st st' : State) {c c' : Cache} {held : ℕ → ℕ}
        → Reach c₀ c held
        → 0 < held i
        → iput size bmapstart inodestart c i st ≡ ok c' st'
        → Reach c₀ c' (less held i)
    uses :
        (i : ℕ) (valid : Bool) (copy : Inode) {c : Cache} {held : ℕ → ℕ}
        → Reach c₀ c held
        → 0 < held i
        → Reach c₀ (put_entry c i (record (c i) { valid = valid; copy = copy })) held

  -- The counts are those of the references held, and no inode has two entries in use.
  record Consistent (c : Cache) (held : ℕ → ℕ) : Type 0 where
    counts : (i : ℕ) → (c i).ref ≡ held i
    range : (i : ℕ) → 0 < held i → i < ninode
    unique :
        (i j : ℕ)
        → 0 < held i
        → 0 < held j
        → (c i).dev ≡ (c j).dev
        → (c i).inum ≡ (c j).inum
        → i ≡ j

  -- What iput does to the cache, where it does not panic.
  iput-entry :
      (c c' : Cache) (i : ℕ) (st st' : State)
      → iput size bmapstart inodestart c i st ≡ ok c' st'
      → (valid : Bool) × (copy : Inode) × (c'
          ≡ put_entry c i (record (c i) { valid = valid; copy = copy; ref = (c i).ref - 1 }))
  unfolding iput
  iput-entry c c' i st st' e = elim (Bool-cases (is_last size bmapstart inodestart (c i))) [
    | inl last ↦
        let e' = rw last at e in
        let (copy, q) =
          bind_ok (free_inode size bmapstart inodestart (c i).inum (c i).copy st) _ c' st' e' in
        (false, copy, q)
    | inr more ↦ ((c i).valid, (c i).copy, let e' = rw more at e in cc e')
  ]

  Consistent-gets :
      (dev inum i : ℕ) (d c : Cache) (h : ℕ → ℕ)
      → Consistent d h
      → iget dev inum d ≡ some (c, i)
      → Consistent c (more h i)
  Consistent-gets dev inum i d c h k e = elim (iget-Got dev inum d) [
    | no_entry a b q ↦ absurd (ground (arith, q, e))
    | shared l lt hit q ↦
        let same : l ≡ i = ground (arith, q, e) in
        let table : c ≡ put_entry d l (record (d l) { ref = (d l).ref + 1 }) =
          ground (arith, q, e) in
        rw (table, sym same)
          (record {
            counts = λ j. ground (arith, k.counts j);
            range = λ j a. elim (ℕ_discrete j l) [
              | yes x ↦ omega (arith, x, lt)
              | no x ↦ k.range j (ground (arith, a, x))
            ];
            unique = λ j m a b x y.
                let used : 0 < h l = ground (arith, hit, k.counts l) in
                k.unique j m (ground (arith, a, used)) (ground (arith, b, used)) (ground (arith, x))
                  (ground (arith, y));
          })
    | recycled l lt free none_for q ↦
        let same : l ≡ i = ground (arith, q, e) in
        let table : c
            ≡ put_entry d l (record (d l) { dev = dev; inum = inum; ref = 1; valid = false }) =
          ground (arith, q, e) in
        let other : (m : ℕ) → 0 < h m → (d m).dev ≡ dev → (d m).inum ≡ inum → ⊥ =
          λ m a x y. ground (arith, none_for m (k.range m a), k.counts m, a, x, y) in
        let unused : h l ≡ 0 = sym (k.counts l) ∙ free in
        rw (table, sym same)
          (record {
            counts = λ j. ground (arith, k.counts j, unused);
            range = λ j a. elim (ℕ_discrete j l) [
              | yes x ↦ omega (arith, x, lt)
              | no x ↦ k.range j (ground (arith, a, x))
            ];
            unique = λ j m a b x y. elim (ℕ_discrete j l) [
              | yes jl ↦ elim (ℕ_discrete m l) [
                | yes ml ↦ jl ∙ sym ml
                | no nm ↦ absurd (
                    other m (ground (arith, b, nm)) (ground (arith, x, jl, nm))
                      (ground (arith, y, jl, nm)))
              ]
              | no nj ↦ elim (ℕ_discrete m l) [
                | yes ml ↦ absurd (
                    other j (ground (arith, a, nj)) (ground (arith, x, ml, nj))
                      (ground (arith, y, ml, nj)))
                | no nm ↦
                    k.unique j m (ground (arith, a, nj)) (ground (arith, b, nm))
                      (ground (arith, x, nj, nm)) (ground (arith, y, nj, nm))
              ]
            ];
          })
  ]

  Reach-Consistent :
      (c₀ c : Cache) (held : ℕ → ℕ)
      → ((i : ℕ) → (c₀ i).ref ≡ 0)
      → Reach c₀ c held
      → Consistent c held
  unfolding idup
  Reach-Consistent c₀ c held z starts = record {
    counts = z;
    range = λ i h. absurd (omega (arith, h));
    unique = λ i j h. absurd (omega (arith, h));
  }
  Reach-Consistent c₀ c held z (gets dev inum i {c = d} {held = h} r e) =
      Consistent-gets dev inum i d c h (Reach-Consistent c₀ d h z r) e
  Reach-Consistent c₀ c held z (dups i {c = d} {held = h} r p) =
      let k = Reach-Consistent c₀ d h z r in
      record {
        counts = λ j. ground (arith, k.counts j);
        range = λ j q. ground (arith, k.range j, q, p);
        unique = λ j l q s a b. ground (arith, k.unique j l, q, s, a, b, p);
      }
  Reach-Consistent c₀ c held z (puts i st st' {c = d} {held = h} r p e) =
      let k = Reach-Consistent c₀ d h z r in
      let (valid, copy, q) = iput-entry d c i st st' e in
      rw q (record {
        counts = λ j. ground (arith, k.counts j);
        range = λ j l. k.range j (ground (arith, l));
        unique = λ j l a b x y.
            k.unique j l (ground (arith, a)) (ground (arith, b)) (ground (arith, x))
              (ground (arith, y));
      })
  Reach-Consistent c₀ c held z (uses i valid copy {c = d} r p) =
      let k = Reach-Consistent c₀ d held z r in
      record {
        counts = λ j. ground (arith, k.counts j);
        range = k.range;
        unique = λ j l q s a b. k.unique j l q s (ground (arith, a)) (ground (arith, b));
      }

  -- In every history that begins with a cache without references, for an entry to which a reference is
  -- held: its count is the number of references, no other entry in use is for the same inode, and iget
  -- of the inode gives the entry again, with one reference more, and changes nothing else.
  pub Reach-shared :
      (c₀ c : Cache) (held : ℕ → ℕ) (i : ℕ)
      → ((j : ℕ) → (c₀ j).ref ≡ 0)
      → Reach c₀ c held
      → 0 < held i
      → ((c i).ref ≡ held i)
        × ((j : ℕ) → 0 < held j → (c j).dev ≡ (c i).dev → (c j).inum ≡ (c i).inum → j ≡ i)
        × (iget (c i).dev (c i).inum c
            ≡ some (put_entry c i (record (c i) { ref = held i + 1 }), i))
  Reach-shared c₀ c held i z r p =
      let k = Reach-Consistent c₀ c held z r in
      let self : is_for (c i).dev (c i).inum (c i) ≡ true = ground (arith, k.counts i, p) in
      (
        k.counts i,
        λ j q a b. k.unique j i q p a b,
        elim (iget-Got (c i).dev (c i).inum c) [
          | no_entry a none_for q ↦ absurd (ground (arith, self, none_for i (k.range i p)))
          | recycled l lt free none_for q ↦ absurd (ground (arith, self, none_for i (k.range i p)))
          | shared l lt hit q ↦
              let same : l ≡ i =
                k.unique l i (ground (arith, hit, k.counts l)) p (ground (arith, hit))
                  (ground (arith, hit)) in
              let count = k.counts i in
              q
              ∙ ap (λ x. some (put_entry c x (record (c x) { ref = (c x).ref + 1 }), x)) same
              ∙ ap (λ n. some (put_entry c i (record (c i) { ref = n + 1 }), i)) count
        ],
      )
