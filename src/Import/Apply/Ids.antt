-- ===== src/Import/Apply/Ids.antt =====
-- app/importer.py, `apply_import`: the ids of the mappings.
use ser2net.Common.{
  true, false, ◌≡◌, refl, sym, ap, ◌∙◌, ◌≢◌, ◌⊎◌, inl, inr, Option, none, some, List, [], ◌∷◌, ◌++◌,
  map, append-nil, append_assoc, Bool-cases, All, All-imply, Pairwise, Pairwise-snoc,
}
use ser2net.Common.Result.{ok, ok-injective}
use ser2net.Common.Texts.{same, same_iff, is_one_of}
use Prim.Native.String.{String}
use ser2net.Config.{Floats, World}
use ser2net.Config.Mapping.{MappingConfig}
use ser2net.Import.Apply.{
  Identity, ids, copy_of, match_mapping, with_id, unused_id, replace_all, replace_first, Merged,
  place, merge_one, merge_all, apply_import,
}

abbrev pub AreDistinct : List String → Type 0
AreDistinct = Pairwise (λ i j. i ≢ j)

-- The ids afterwards are those before, and more behind them.
abbrev pub Keeps : List String → List String → Type 0
Keeps before after = (more : List String) × (after ≡ before ++ more)

not_one_of : (i : String) (used : List String) → is_one_of i used ≡ false → All (λ j. j ≢ i) used
not_one_of i [] h = tt
not_one_of i (j ∷ used) h = elim (Bool-cases (same i j)) [
  | inl e ↦ absurd (cc (h, e))
  | inr e ↦ (λ q. absurd (cc (e, (same_iff i j).1 (sym q))), not_one_of i used (rw (← h, e) refl))
]

module _ (fl : Floats) (os : World) (lib : Identity fl)
    (new_id_fresh : (used : List String) → is_one_of (lib.new_id used) used ≡ false)
    (equal_ids : (a b : MappingConfig fl) → lib.equal a b ≡ true → a.id ≡ b.id) where
  unused_id-free :
      (used : List String) (m : MappingConfig fl)
      → is_one_of (unused_id fl os lib used m).id used ≡ false
  unused_id-free used m = elim (Bool-cases (is_one_of m.id used)) [
    | inl e ↦ rw (e) (new_id_fresh used)
    | inr e ↦ rw (e) e
  ]

  replace_all-distinct :
      (seen : List String) (incoming : List (MappingConfig fl))
      → All (λ i. is_one_of i seen ≡ false) (ids fl os lib (replace_all fl os lib seen incoming))
        × AreDistinct (ids fl os lib (replace_all fl os lib seen incoming))
  unfolding replace_all
  replace_all-distinct seen [] = (tt, tt)
  replace_all-distinct seen (m ∷ incoming) =
      let m' = unused_id fl os lib seen (copy_of fl os lib m) in
      let (frees, pairs) = replace_all-distinct (m'.id ∷ seen) incoming in
      let later = ids fl os lib (replace_all fl os lib (m'.id ∷ seen) incoming) in
      (
        (
          unused_id-free seen (copy_of fl os lib m),
          All-imply later (λ i r. (apart i m'.id seen r).1) frees,
        ),
        (All-imply later (λ i r q. (apart i m'.id seen r).0 (sym q)) frees, pairs),
      )
    where
      apart :
          (i j : String) (used : List String)
          → is_one_of i (j ∷ used) ≡ false
          → (i ≢ j) × (is_one_of i used ≡ false)
      apart i j used h = elim (Bool-cases (same i j)) [
        | inl e ↦ absurd (cc (h, e))
        | inr e ↦ (λ q. absurd (cc (e, (same_iff i j).1 q)), rw (← h, e) refl)
      ]

  ids-replace_first :
      (target m : MappingConfig fl) (result : List (MappingConfig fl))
      → m.id ≡ target.id
      → ids fl os lib (replace_first fl os lib target m result) ≡ ids fl os lib result
  unfolding replace_first
  ids-replace_first target m [] h = refl
  ids-replace_first target m (e ∷ result) h = elim (Bool-cases (lib.equal e target)) [
    | inl q ↦ rw (q) (ap (λ i. i ∷ ids fl os lib result) (h ∙ sym (equal_ids e target q)))
    | inr q ↦ rw (q) (ap (◌∷◌ e.id) (ids-replace_first target m result h))
  ]

  -- What a step makes of the ids: none, or a new one at the end.
  Extends : List String → List String → Type 0
  Extends before after =
      (after ≡ before)
      ⊎ ((i : String) × (after ≡ before ++ (i ∷ [])) × (is_one_of i before ≡ false))

  ids-append :
      (ms : List (MappingConfig fl)) (m : MappingConfig fl)
      → ids fl os lib (ms ++ (m ∷ [])) ≡ ids fl os lib ms ++ (m.id ∷ [])
  ids-append [] m = refl
  ids-append (e ∷ ms) m = ap (◌∷◌ e.id) (ids-append ms m)

  place-Extends :
      (o : Option (MappingConfig fl)) (m : MappingConfig fl) (merged : Merged fl os lib)
      → Extends (ids fl os lib merged.0) (ids fl os lib (place fl os lib o m merged).0)
  unfolding Extends
  place-Extends none m (result, touched) =
      let m' = unused_id fl os lib (ids fl os lib result) m in
      inr (m'.id, ids-append result m', unused_id-free (ids fl os lib result) m)
  place-Extends (some target) m (result, touched) =
      elim (Bool-cases (lib.equal (with_id fl os lib m target.id) target)) [
        | inl e ↦ inl (rw (e) refl)
        | inr e ↦
            inl (rw (e) (ids-replace_first target (with_id fl os lib m target.id) result refl))
      ]

  extended-distinct :
      (before after : List String) → Extends before after → AreDistinct before → AreDistinct after
  unfolding Extends
  extended-distinct before after (inl e) h = rw (e) h
  extended-distinct before after (inr (i, e, free)) h =
      rw (e) (Pairwise-snoc (λ i j. i ≢ j) before i h (not_one_of i before free))

  extended-Keeps : (before after : List String) → Extends before after → Keeps before after
  unfolding Extends
  extended-Keeps before after (inl e) = ([], e ∙ sym (append-nil before))
  extended-Keeps before after (inr (i, e, free)) = (i ∷ [], e)

  merge_all-ids :
      (incoming : List (MappingConfig fl)) (merged : Merged fl os lib)
      → AreDistinct (ids fl os lib merged.0)
      → Keeps (ids fl os lib merged.0) (ids fl os lib (merge_all fl os lib incoming merged).0)
        × AreDistinct (ids fl os lib (merge_all fl os lib incoming merged).0)
  unfolding merge_all merge_one
  merge_all-ids [] merged h = (([], sym (append-nil (ids fl os lib merged.0))), h)
  merge_all-ids (m ∷ incoming) merged h =
      let m' = copy_of fl os lib m in
      let o = match_mapping fl os lib merged.0 m' in
      let next = place fl os lib o m' merged in
      let step = place-Extends o m' merged in
      let before = ids fl os lib merged.0 in
      let after = ids fl os lib next.0 in
      let ((more, e), distinct) =
        merge_all-ids incoming next (extended-distinct before after step h) in
      let (one, q) = extended-Keeps before after step in
      ((one ++ more, e ∙ (ap (λ x. x ++ more) q ∙ append_assoc before one more)), distinct)

  ids-copies :
      (current : List (MappingConfig fl))
      → ids fl os lib (map (copy_of fl os lib) current) ≡ ids fl os lib current
  unfolding copy_of
  ids-copies [] = refl
  ids-copies (m ∷ current) = ap (◌∷◌ m.id) (ids-copies current)

  -- If new ids are not in use and mappings with equal dicts have one id, an import gives mappings
  -- with different ids, whatever ids the file has. A merge into mappings with different ids keeps
  -- these ids, in their order, before any new ones.
  pub apply_import-ids :
      (current incoming : List (MappingConfig fl))
      → ((merged : Merged fl os lib)
          → apply_import fl os lib current incoming "replace" ≡ ok merged
          → AreDistinct (ids fl os lib merged.0))
        × (AreDistinct (ids fl os lib current)
            → (merged : Merged fl os lib)
            → apply_import fl os lib current incoming "merge" ≡ ok merged
            → Keeps (ids fl os lib current) (ids fl os lib merged.0)
              × AreDistinct (ids fl os lib merged.0))
  unfolding apply_import
  apply_import-ids current incoming =
      let copies = map (copy_of fl os lib) current in
      (
        λ merged e. rw (← ok-injective e) (replace_all-distinct [] incoming).1,
        λ h merged e.
            rw (← ok-injective e, ← ids-copies current)
              (merge_all-ids incoming (copies, []) (rw (ids-copies current) h)),
      )
