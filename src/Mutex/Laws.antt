-- ===== src/Mutex/Laws.antt =====
-- What the spin lock guarantees in every reachable state.
use simple_os_rs.Common.{
  update, ℕ, ◌==◌, ◌≡◌, ◌≢◌, refl, sym, ap, ◌∙◌, true, false, arith, Bool-cases, inl, inr, ==_iff,
  subst, List, [], ◌∷◌,
}
use simple_os_rs.Mutex.{
  try_lock, unlock, Thread, outside, spinning, entered, writing, leaving, System, after_try, Step,
  call_lock, spin, try_once, read, write, drop_guard, start, Reach, started, stepped, holds,
}

module _ {ℓ} {S : Type ℓ} where
  -- The lock is taken exactly while a thread holds its guard, no two threads do, and what a thread
  -- is about to replace is the shared state.
  pub record Inv (s : System S) : Type ℓ where
    pub held : (i : ℕ) → holds (s.threads i) ≡ true → s.lock.locked ≡ true
    pub owned : s.lock.locked ≡ true → (i : ℕ) × (holds (s.threads i) ≡ true)
    pub unique : (i j : ℕ) → holds (s.threads i) ≡ true → holds (s.threads j) ≡ true → i ≡ j
    pub fresh : (i : ℕ) (a : S) → s.threads i ≡ writing a → s.shared ≡ a

  update_at : (g : ℕ → Thread S) (i : ℕ) (t : Thread S) → update g i t i ≡ t
  update_at g i t = ground arith

  update_off : (g : ℕ → Thread S) (i j : ℕ) (t : Thread S) → i ≢ j → update g i t j ≡ g j
  update_off g i j t ne = ground arith

  start-Inv : (a : S) → Inv (start a)
  start-Inv a = record {
    held = λ i h. cc;
    owned = λ h. cc;
    unique = λ i j h k. cc;
    fresh = λ i b e. cc;
  }

  -- A step of thread `i` that leaves it on its side of the lock, with the lock as it was.
  same_side :
      (s : System S) (i : ℕ) (t : Thread S) (a : S)
      → Inv s
      → holds t ≡ holds (s.threads i)
      → ((j : ℕ) (b : S) → update s.threads i t j ≡ writing b → a ≡ b)
      → Inv (record s { shared = a; threads = update s.threads i t })
  same_side s i t a v e w = record {
    held = λ j h. v.held j (sym (side j) ∙ h);
    owned = λ l. let (j, h) = v.owned l in (j, side j ∙ h);
    unique = λ j k hj hk. v.unique j k (sym (side j) ∙ hj) (sym (side k) ∙ hk);
    fresh = w;
  }
    where
      side : (j : ℕ) → holds (update s.threads i t j) ≡ holds (s.threads j)
      side j = elim (Bool-cases (i == j)) [
        | inl hit ↦ rw hit (e ∙ ap (λ x. holds (s.threads x)) ((==_iff i j).0 hit))
        | inr miss ↦ rw miss
      ]

  -- Thread `i` gets the free lock.
  enters :
      (s : System S) (i : ℕ)
      → s.lock.locked ≡ false
      → Inv s
      → Inv (record s { lock = record { locked = true }; threads = update s.threads i entered })
  enters s i open_lock v = record {
    held = λ j h. refl;
    owned = λ l. (i, ap holds (update_at s.threads i entered));
    unique = λ j k hj hk. sym (only j hj) ∙ only k hk;
    fresh = λ j b e. elim (Bool-cases (i == j)) [
      | inl hit ↦ let here : entered ≡ writing b = rw hit at e in cc
      | inr miss ↦ v.fresh j b (rw miss at e)
    ];
  }
    where
      only : (j : ℕ) → holds (update s.threads i entered j) ≡ true → i ≡ j
      only j h = elim (Bool-cases (i == j)) [
        | inl hit ↦ (==_iff i j).0 hit
        | inr miss ↦
            let was : holds (s.threads j) ≡ true = rw miss at h in
            let taken = v.held j was in absurd (cc)
      ]

  -- Thread `i` lets the lock go.
  leaves :
      (s : System S) (i : ℕ)
      → holds (s.threads i) ≡ true
      → Inv s
      → Inv (record s { lock = record { locked = false }; threads = update s.threads i outside })
  leaves s i inside v = record {
    held = λ j h. absurd (none_left j h);
    owned = λ l. absurd (cc);
    unique = λ j k hj hk. absurd (none_left j hj);
    fresh = λ j b e. absurd (none_left j (ap holds e));
  }
    where
      none_left : (j : ℕ) → ¬ (holds (update s.threads i outside j) ≡ true)
      none_left j h = elim (Bool-cases (i == j)) [
        | inl hit ↦ let out : false ≡ true = rw hit at h in cc
        | inr miss ↦
            let was : holds (s.threads j) ≡ true = rw miss at h in
            let same : i ≡ j = v.unique i j inside was in absurd (ground arith)
      ]

  -- A thread that is not about to write joins: the others are as fresh as they were.
  still_fresh :
      (s : System S) (i : ℕ) (t : Thread S)
      → Inv s
      → ((b : S) → t ≡ writing b → s.shared ≡ b)
      → (j : ℕ) (b : S) → update s.threads i t j ≡ writing b
      → s.shared ≡ b
  still_fresh s i t v w j b e = elim (Bool-cases (i == j)) [
    | inl hit ↦ w b (rw hit at e)
    | inr miss ↦ v.fresh j b (rw miss at e)
  ]

  -- One try of a thread outside, whose state `t` is the same if the lock is refused.
  tries :
      (s : System S) (i : ℕ) (t : Thread S)
      → s.threads i ≡ t
      → holds t ≡ false
      → Inv s
      → Inv (record s {
        lock = (try_lock s.lock).0;
        threads = update s.threads i (after_try t (try_lock s.lock).1);
      })
  unfolding try_lock
  tries s i t at out v = elim (Bool-cases s.lock.locked) [
    | inl taken ↦ rw taken (
        subst (λ l. Inv (record s { lock = record { locked = l }; threads = update s.threads i t }))
          taken
          (same_side s i t s.shared v (rw at) (still_fresh s i t v λ b e. v.fresh i b (at ∙ e))))
    | inr free ↦ rw free (enters s i free v)
  ]

  -- While thread `i` holds the guard and does not go on to write, no thread is about to write.
  none_writes :
      (s : System S) (i : ℕ) (t : Thread S) {a : S}
      → Inv s
      → holds (s.threads i) ≡ true
      → ((b : S) → t ≢ writing b)
      → (j : ℕ) (b : S) → update s.threads i t j ≡ writing b
      → a ≡ b
  none_writes s i t v inside w j b e = elim (Bool-cases (i == j)) [
    | inl hit ↦ absurd (w b (rw hit at e))
    | inr miss ↦
        let there : s.threads j ≡ writing b = rw miss at e in
        let same : i ≡ j = v.unique i j inside (ap holds there) in absurd (ground arith)
  ]

  Step-Inv : (f : ℕ → S → S) {s u : System S} → Step f s u → Inv s → Inv u
  Step-Inv f {s} (call_lock i at eq) v =
      rw eq (same_side s i spinning s.shared v (rw at) (still_fresh s i spinning v (λ b e. cc)))
  Step-Inv f {s} (spin i at eq) v = rw eq (tries s i spinning at refl v)
  Step-Inv f {s} (try_once i at eq) v = rw eq (tries s i outside at refl v)
  Step-Inv f {s} (read i at eq) v = rw eq (
      same_side s i (writing s.shared) s.shared v (rw at)
        (still_fresh s i (writing s.shared) v (λ b e. cc)))
  Step-Inv f {s} (write i a at eq) v =
      rw eq
        (same_side s i leaving (f i a) v (rw at) (none_writes s i leaving v (rw at) (λ b e. cc)))
  Step-Inv f {s} (drop_guard i at eq) v = rw eq (unfold unlock in leaves s i (rw at) v)

  Reach-Inv : (f : ℕ → S → S) (a : S) {s : System S} → Reach f a s → Inv s
  Reach-Inv f a started = start-Inv a
  Reach-Inv f a (stepped r st) = Step-Inv f st (Reach-Inv f a r)

  -- The threads that have written, the last one first.
  pub writers : (f : ℕ → S → S) (a : S) {s : System S} → Reach f a s → List ℕ
  writers f a started = []
  writers f a (stepped r (write i b at eq)) = i ∷ writers f a r
  writers f a (stepped r (call_lock i at eq)) = writers f a r
  writers f a (stepped r (spin i at eq)) = writers f a r
  writers f a (stepped r (try_once i at eq)) = writers f a r
  writers f a (stepped r (read i at eq)) = writers f a r
  writers f a (stepped r (drop_guard i at eq)) = writers f a r

  -- The operations of the threads one after the other, the last one first.
  abbrev pub in_turn : (ℕ → S → S) → S → List ℕ → S
  in_turn f a [] = a
  in_turn f a (i ∷ is) = f i (in_turn f a is)

  module _ (f : ℕ → S → S) (a : S) where
    -- In every state that any number of threads reach by any interleaving of `lock`, `try_lock`
    -- and dropped guards, at most one thread holds a guard of the lock.
    pub mutual_exclusion :
        {s : System S}
        → Reach f a s
        → (i j : ℕ) → holds (s.threads i) ≡ true
        → holds (s.threads j) ≡ true
        → i ≡ j
    mutual_exclusion r i j hi hj = (Reach-Inv f a r).unique i j hi hj

    -- In every reachable state the shared state is what the operations of the threads give one
    -- after the other, in the order of their writes, although each reads and writes in separate
    -- steps.
    pub shared-in_turn : {s : System S} (r : Reach f a s) → s.shared ≡ in_turn f a (writers f a r)
    unfolding writers
    shared-in_turn started = refl
    shared-in_turn (stepped r (write i b at eq)) =
        let now = (Reach-Inv f a r).fresh i b at in
        ap (λ s. s.shared) eq ∙ ap (f i) (sym now ∙ shared-in_turn r)
    shared-in_turn (stepped r (call_lock i at eq)) = ap (λ s. s.shared) eq ∙ shared-in_turn r
    shared-in_turn (stepped r (spin i at eq)) = ap (λ s. s.shared) eq ∙ shared-in_turn r
    shared-in_turn (stepped r (try_once i at eq)) = ap (λ s. s.shared) eq ∙ shared-in_turn r
    shared-in_turn (stepped r (read i at eq)) = ap (λ s. s.shared) eq ∙ shared-in_turn r
    shared-in_turn (stepped r (drop_guard i at eq)) = ap (λ s. s.shared) eq ∙ shared-in_turn r

    -- In every reachable state in which no thread holds a guard, a thread in the loop of `lock`
    -- gets the guard with its next step.
    pub spin-enters :
        {s : System S}
        → Reach f a s
        → ((j : ℕ) → holds (s.threads j) ≡ false)
        → (i : ℕ) → s.threads i ≡ spinning
        → (u : System S) × Step f s u × (u.threads i ≡ entered) × (u.lock.locked ≡ true)
    unfolding try_lock
    spin-enters {s} r quiet i at = elim (Bool-cases s.lock.locked) [
      | inl taken ↦
          let (j, inside) = (Reach-Inv f a r).owned taken in let out = quiet j in absurd (cc)
      | inr free ↦ (
        record s {
          lock = (try_lock s.lock).0;
          threads = update s.threads i (after_try spinning (try_lock s.lock).1);
        },
        spin i at refl,
        rw free (update_at s.threads i entered),
        refl,
      )
    ]
