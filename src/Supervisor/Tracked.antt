-- ===== src/Supervisor/Tracked.antt =====
-- app/engine/supervisor.py: which running runners are in the dict.
use ser2net.Common.{
  ℕ, ◌<◌, ◌≡◌, refl, sym, ap, ◌∙◌, ◌≢◌, inl, inr, Bool, true, false, ◌&&◌, Option, none, some, List,
  [], ◌∷◌, ◌++◌, arith, ◌==◌, Bool-cases,
}
use ser2net.Supervisor.{
  Mapping, State, set, has, remove_first, add_key, stop_runner, take_old, place_new, apply_mapping,
  stop_mapping, remove_mapping, stop_each, stop_all,
}

-- What holds while nothing interrupts an operation.
pub record IsTracked (s : State) : Type 0 where
  pub tracked : (h : ℕ) → s.alive h ≡ true → (id : ℕ) × (s.runners id ≡ some h)
  pub keyed : (id h : ℕ) → s.runners id ≡ some h → has id s.keys ≡ true
  pub fresh : (id h : ℕ) → s.runners id ≡ some h → h < s.next

has-remove_first :
    (k j : ℕ) (ks : List ℕ) → k ≢ j → has j ks ≡ true → has j (remove_first k ks) ≡ true
unfolding has remove_first
has-remove_first k j [] ne h = h
has-remove_first k j (i ∷ is) ne h = ground (arith, has-remove_first k j is ne)

has-append : (j k : ℕ) (ks : List ℕ) → has j ks ≡ true → has j (ks ++ k ∷ []) ≡ true
unfolding has
has-append j k [] h = cc
has-append j k (i ∷ is) h = ground (arith, has-append j k is)

has-append_self : (k : ℕ) (ks : List ℕ) → has k (ks ++ k ∷ []) ≡ true
unfolding has
has-append_self k [] = ground arith
has-append_self k (i ∷ is) = ground (arith, has-append_self k is)

has-add_key : (j k : ℕ) (ks : List ℕ) → has j ks ≡ true → has j (add_key k ks) ≡ true
has-add_key j k ks h = ground (arith, has-append j k ks h)

has-add_key_self : (k : ℕ) (ks : List ℕ) → has k (add_key k ks) ≡ true
has-add_key_self k ks = ground (arith, has-append_self k ks)

-- What is alive after a stop was alive before, and is not the runner stopped.
pub stopped_lem :
    (alive : ℕ → Bool) (o : Option ℕ) (h : ℕ)
    → stop_runner alive o h ≡ true
    → (alive h ≡ true) × (o ≢ some h)
unfolding stop_runner
stopped_lem alive none h e = (e, λ eq. cc)
stopped_lem alive (some g) h e = (ground arith, λ eq. let same : g ≡ h = cc in ground arith)

pub set_other {ℓ} : {A : Type ℓ} (f : ℕ → A) (k : ℕ) (v : A) (j : ℕ) → j ≢ k → set f k v j ≡ f j
set_other f k v j ne = ground arith

pub set_same {ℓ} : {A : Type ℓ} (f : ℕ → A) (k : ℕ) (v : A) (j : ℕ) → j ≡ k → set f k v j ≡ v
set_same f k v j e = ground arith

left_over :
    (f : ℕ → Option ℕ) (k j : ℕ) {h : ℕ} → set f k none j ≡ some h → (k ≢ j) × (f j ≡ some h)
left_over f k j e = elim (Bool-cases (j == k)) [
  | inl same ↦ let gone : set f k none j ≡ none = set_same f k none j (ground arith) in absurd (cc)
  | inr other ↦
      let ne : j ≢ k = λ eq. ground arith in (λ eq. ne (sym eq), sym (set_other f k none j ne) ∙ e)
]

pub take_old-IsTracked : (s : State) (id : ℕ) → IsTracked s → IsTracked (take_old s id)
unfolding take_old
take_old-IsTracked s id v = record {
  tracked = λ h alive.
      let (was, differs) = stopped_lem s.alive (s.runners id) h alive in
      let (id', found) = v.tracked h was in
      (id', set_other s.runners id none id' (λ e. differs (rw (← e) found)) ∙ found);
  keyed = λ id' h found.
      let (ne, was) = left_over s.runners id id' found in
      has-remove_first id id' s.keys ne (v.keyed id' h was);
  fresh = λ id' h found. v.fresh id' h (left_over s.runners id id' found).1;
}

pub take_old-none : (s : State) (id : ℕ) → (take_old s id).runners id ≡ none
unfolding take_old
take_old-none s id = set_same s.runners id none id refl

-- A runner may be placed where there is none.
pub place_new-IsTracked :
    (s : State) (m : Mapping) (starts : Bool)
    → s.runners m.id ≡ none
    → IsTracked s
    → IsTracked (place_new s m starts)
unfolding place_new
place_new-IsTracked s m starts free v = record {
  tracked = λ h alive. elim (Bool-cases (h == s.next)) [
    | inl same ↦
        let e : s.next ≡ h = ground arith in
        (m.id, set_same s.runners m.id (some s.next) m.id refl ∙ ap some e)
    | inr other ↦
        let was =
          sym (set_other s.alive s.next (m.enabled && starts) h (λ e. ground arith)) ∙ alive in
        let (id, found) = v.tracked h was in
        (
          id,
          set_other s.runners m.id (some s.next) id
                (λ e. let gone : s.runners id ≡ none = rw e free in cc)
              ∙ found,
        )
  ];
  keyed = λ id h found. elim (Bool-cases (id == m.id)) [
    | inl same ↦ let e : id ≡ m.id = ground arith in rw e (has-add_key_self m.id s.keys)
    | inr other ↦
        let ne : id ≢ m.id = λ e. ground arith in
        has-add_key id m.id s.keys
          (v.keyed id h (sym (set_other s.runners m.id (some s.next) id ne) ∙ found))
  ];
  fresh = λ id h found. elim (Bool-cases (id == m.id)) [
    | inl same ↦
        let e : some s.next ≡ some h =
          sym (set_same s.runners m.id (some s.next) id (ground arith)) ∙ found in
        let e' : s.next ≡ h = cc in omega arith
    | inr other ↦
        let ne : id ≢ m.id = λ e. ground arith in
        let lt = v.fresh id h (sym (set_other s.runners m.id (some s.next) id ne) ∙ found) in
        omega arith
  ];
}

pub apply_mapping-IsTracked :
    (s : State) (m : Mapping) (starts : Bool) → IsTracked s → IsTracked (apply_mapping s m starts)
unfolding apply_mapping
apply_mapping-IsTracked s m starts v =
    place_new-IsTracked (take_old s m.id) m starts (take_old-none s m.id)
      (take_old-IsTracked s m.id v)

pub stop_mapping-IsTracked : (s : State) (id : ℕ) → IsTracked s → IsTracked (stop_mapping s id)
unfolding stop_mapping
stop_mapping-IsTracked s id v = record {
  tracked = λ h alive. v.tracked h (stopped_lem s.alive (s.runners id) h alive).0;
  keyed = v.keyed;
  fresh = v.fresh;
}

pub remove_mapping-IsTracked : (s : State) (id : ℕ) → IsTracked s → IsTracked (remove_mapping s id)
unfolding remove_mapping
remove_mapping-IsTracked s id v =
    let v' = take_old-IsTracked s id v in
    record { tracked = v'.tracked; keyed = v'.keyed; fresh = v'.fresh }

stop_each_lem :
    (runners : ℕ → Option ℕ) (ks : List ℕ) (alive : ℕ → Bool) (h : ℕ)
    → stop_each runners ks alive h ≡ true
    → (alive h ≡ true) × ((k : ℕ) → has k ks ≡ true → runners k ≢ some h)
unfolding stop_each has
stop_each_lem runners [] alive h e = (e, λ k no found. cc)
stop_each_lem runners (k ∷ ks) alive h e =
    let (later, rest) = stop_each_lem runners ks (stop_runner alive (runners k)) h e in
    let (was, differs) = stopped_lem alive (runners k) h later in
    (
      was,
      λ j member found. elim (Bool-cases (k == j)) [
        | inl same ↦ let eq : k ≡ j = ground arith in differs (rw eq found)
        | inr other ↦ rest j (ground arith) found
      ],
    )

-- Stopping all leaves no runner running, when every running runner is in the dict.
pub stop_all-none_alive : (s : State) → IsTracked s → (h : ℕ) → (stop_all s).alive h ≡ false
unfolding stop_all
stop_all-none_alive s v h = elim (Bool-cases (stop_each s.runners s.keys s.alive h)) [
  | inl alive ↦
      let (was, missed) = stop_each_lem s.runners s.keys s.alive h alive in
      let (id, found) = v.tracked h was in absurd (missed id (v.keyed id h found) found)
  | inr stopped ↦ stopped
]

pub stop_all-IsTracked : (s : State) → IsTracked s → IsTracked (stop_all s)
stop_all-IsTracked s v =
    let none_alive = stop_all-none_alive s v in
    unfold stop_all in
    record {
      tracked = λ h alive. absurd (let dead = none_alive h in cc);
      keyed = λ id h found. absurd (cc);
      fresh = λ id h found. absurd (cc);
    }
