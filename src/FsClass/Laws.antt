-- ===== src/FsClass/Laws.antt =====
-- The class registry refines a map from names to classes, and the mount table hands out free slots.
use fs_playground.Base.{
  ℕ, zero, suc, ◌<◌, ◌≡◌, ◌≢◌, refl, inl, inr, true, false, Option, none, some, List, [], ◌∷◌,
  arith, if◌then◌else◌, ℤ, pos, eexist, enomem, CString, bytes_eq, bytes_eq_refl, ap, ◌==◌, ◌&&◌,
  is_zero, eq_of_bytes_eq, Bool-cases, length, get_elem?,
}
use fs_playground.FsClass.{
  Mount, fs_create, fs_class_by_name, register_slot, fs_class_register, register_outcome,
  create_round,
}

module _ {C : Type 0} where
  -- Every slot from here on is empty.
  abbrev pub AllEmpty : List (Option C) → Type 0
  AllEmpty [] = Unit {0}
  AllEmpty (o ∷ fses) = (o ≡ none) × AllEmpty fses

  abbrev pub free_slots : List (Option C) → ℕ
  free_slots [] = 0
  free_slots (none ∷ fses) = suc (free_slots fses)
  free_slots (some c ∷ fses) = free_slots fses

  module _ (name : C → CString) where
    -- The registered classes stand in front, under names of their own.
    abbrev pub IsPacked : List (Option C) → Type 0
    IsPacked [] = Unit {0}
    IsPacked (none ∷ fses) = AllEmpty fses
    IsPacked (some c ∷ fses) = (fs_class_by_name name (name c) fses ≡ none) × IsPacked fses

    -- A free slot is taken: the scan then finds the new class under its name, and all else as before.
    abbrev Taken : C → List (Option C) → Option (List (Option C)) → Type 0
    Taken cls fses none = free_slots fses ≡ 0
    Taken cls fses (some fses') =
        (0 < free_slots fses)
        × (length fses' ≡ length fses)
        × IsPacked fses'
        × ((n : CString)
            → fs_class_by_name name n fses'
              ≡ (if bytes_eq n (name cls) then some cls else fs_class_by_name name n fses))

    names_differ :
        (cls c : C) (n : CString)
        → bytes_eq (name cls) (name c) ≡ false
        → bytes_eq n (name c) ≡ true
        → bytes_eq n (name cls) ≡ false
    names_differ cls c n d e =
        ground (arith, eq_of_bytes_eq n (name c), eq_of_bytes_eq n (name cls), bytes_eq_refl n)

    none_of_AllEmpty :
        (n : CString) (fses : List (Option C)) → AllEmpty fses → fs_class_by_name name n fses ≡ none
    unfolding fs_class_by_name
    none_of_AllEmpty n [] h = refl
    none_of_AllEmpty n (none ∷ fses) h = refl
    none_of_AllEmpty n (some c ∷ fses) h = cc

    IsPacked-of_AllEmpty : (fses : List (Option C)) → AllEmpty fses → IsPacked fses
    IsPacked-of_AllEmpty [] h = tt
    IsPacked-of_AllEmpty (none ∷ fses) h = h.1
    IsPacked-of_AllEmpty (some c ∷ fses) h = cc

    Taken-cons :
        (cls c : C) (fses : List (Option C)) (o : Option (List (Option C)))
        → bytes_eq (name cls) (name c) ≡ false
        → fs_class_by_name name (name c) fses ≡ none
        → Taken cls fses o
        → Taken cls (some c ∷ fses) (elim o [ none ↦ none | some fses' ↦ some (some c ∷ fses') ])
    unfolding fs_class_by_name
    Taken-cons cls c fses none ne once t = t
    Taken-cons cls c fses (some fses') ne once (lt, len, p, reads) = (
      lt,
      ap suc len,
      (
        ground (
          arith,
          reads (name c),
          names_differ c cls (name cls),
          eq_of_bytes_eq (name c) (name cls),
          bytes_eq_refl (name c),
        ),
        p,
      ),
      λ n. ground (arith, reads n, names_differ cls c n),
    )

    register_slot-Taken :
        (cls : C) (fses : List (Option C))
        → IsPacked fses
        → fs_class_by_name name (name cls) fses ≡ none
        → Taken cls fses (register_slot cls fses)
    unfolding fs_class_by_name register_slot
    register_slot-Taken cls [] p fresh = refl
    register_slot-Taken cls (none ∷ fses) p fresh = (
      omega arith,
      refl,
      (none_of_AllEmpty (name cls) fses p, IsPacked-of_AllEmpty fses p),
      λ n. ground (arith, none_of_AllEmpty n fses p),
    )
    register_slot-Taken cls (some c ∷ fses) p fresh =
        elim (Bool-cases (bytes_eq (name cls) (name c))) [
          | inl e ↦ ground (arith, e)
          | inr ne ↦
              Taken-cons cls c fses (register_slot cls fses) ne p.0
                (register_slot-Taken cls fses p.1 (ground (arith, ne, fresh)))
        ]

    -- What a registration does to a packed table: a name that is taken is refused with -EEXIST, a
    -- full table with -ENOMEM, and neither changes the table. Otherwise the scan finds the new
    -- class under its name, and every other name as before; the table stays packed.
    pub record Registers (cls : C) (fses : List (Option C)) (fses' : List (Option C)) (res : ℤ)
        : Type 0 where
      pub code : res ≡ (elim (fs_class_by_name name (name cls) fses) [
        | some _ ↦ eexist
        | none ↦ if free_slots fses == 0 then enomem else pos 0
      ])
      pub packed : IsPacked fses'
      pub size : length fses' ≡ length fses
      pub refused : is_zero res ≡ false → fses' ≡ fses
      pub reads :
          (n : CString)
          → fs_class_by_name name n fses' ≡ (
              if is_zero res && bytes_eq n (name cls)
              then some cls
              else fs_class_by_name name n fses)

    outcome-Registers :
        (cls : C) (fses : List (Option C)) (o : Option C) (filled : Option (List (Option C)))
        → IsPacked fses
        → fs_class_by_name name (name cls) fses ≡ o
        → (o ≡ none → Taken cls fses filled)
        → let r = register_outcome fses o filled in Registers cls fses r.0 r.1
    unfolding register_outcome
    outcome-Registers cls fses (some c) filled p e t = record {
      code = rw e;
      packed = p;
      size = refl;
      refused = λ _. refl;
      reads = λ n. refl;
    }
    outcome-Registers cls fses none none p e t = record {
      code = rw (e, t refl);
      packed = p;
      size = refl;
      refused = λ _. refl;
      reads = λ n. refl;
    }
    outcome-Registers cls fses none (some fses') p e t =
        let taken = t refl in
        record {
          code = rw e (ground (arith, taken.0));
          packed = taken.2;
          size = taken.1;
          refused = λ h. cc;
          reads = taken.3;
        }

    -- Registering a class in a packed table returns -EEXIST where its name is taken, else -ENOMEM
    -- where no slot is free, else 0; an error leaves the table as it was; on 0 the class is found
    -- under its name and every other name finds what it found before; the table stays packed and
    -- keeps its size.
    pub fs_class_register-Registers :
        (cls : C) (fses : List (Option C))
        → IsPacked fses
        → let r = fs_class_register name cls fses in Registers cls fses r.0 r.1
    unfolding fs_class_register
    fs_class_register-Registers cls fses p =
        outcome-Registers cls fses (fs_class_by_name name (name cls) fses) (register_slot cls fses)
          p refl (register_slot-Taken cls fses p)

  -- `fs_create` fails exactly on a table with no free slot. Otherwise it fills a slot that was
  -- free with what it is given, and leaves every other slot alone.
  abbrev pub Created :
      C → Option ℕ → Option ℕ → List (Mount C) → Option (ℕ × List (Mount C)) → Type 0
  Created cls blk at ms none = (i : ℕ) (m : Mount C) → get_elem? ms i ≡ some m → m.cls ≢ none
  Created cls blk at ms (some (i, ms')) =
      ((m : Mount C) × (get_elem? ms i ≡ some m) × (m.cls ≡ none))
      × (get_elem? ms' i ≡ some (record { cls = some cls; blk = blk; mnt_at = at }))
      × ((j : ℕ) → j ≢ i → get_elem? ms' j ≡ get_elem? ms j)

  create_round-Created :
      (cls : C) (blk at : Option ℕ) (m : Mount C) (ms : List (Mount C)) (o : Option C)
      (rest : Option (ℕ × List (Mount C)))
      → m.cls ≡ o
      → Created cls blk at ms rest
      → Created cls blk at (m ∷ ms) (create_round cls blk at m ms o rest)
  unfolding create_round
  create_round-Created cls blk at m ms none rest e c =
      ((m, refl, e), refl, elim [ zero ↦ λ ne. absurd (ne refl) | suc j ↦ λ ne. refl ])
  create_round-Created cls blk at m ms (some x) none e c = elim [
    | zero ↦ λ m' h n. cc
    | suc i ↦ λ m' h. c i m' h
  ]
  create_round-Created cls blk at m ms (some x) (some (i, ms')) e (was, now, others) =
      (was, now, elim [ zero ↦ λ ne. refl | suc j ↦ λ ne. others j (λ q. ne (ap suc q)) ])

  -- Fs_create fails only if no slot of the mount table is free; otherwise it fills a slot that was
  -- free with what it is given and leaves every other slot alone.
  pub fs_create-Created :
      (cls : C) (blk at : Option ℕ) (ms : List (Mount C))
      → Created cls blk at ms (fs_create cls blk at ms)
  unfolding fs_create
  fs_create-Created cls blk at [] = λ i m h. cc
  fs_create-Created cls blk at (m ∷ ms) =
      create_round-Created cls blk at m ms m.cls (fs_create cls blk at ms) refl
        (fs_create-Created cls blk at ms)
