-- ===== src/Autoheal/Hourly.antt =====
-- The bound on the restarts of an hour.
use dark_noc.Base.{
  ltb, if◌then◌else◌, Bool-cases, Option-cases, length, where_rows, ℕ, suc, ◌+◌, ◌*◌, ◌≤◌, ◌<◌, min,
  max, String, ◌≡◌, refl, ap, ◌∙◌, inl, inr, Bool, not, ◌||◌, Option, none, some, List, [], ◌∷◌,
  ◌++◌, arith, str_eq,
}
use dark_noc.Base.Json.{Dict, get, is_truthy}
use dark_noc.Autoheal.{
  ServiceReport, Healing, fresh_history, try_restart, is_held, heal_service, heal, heal_all,
  heal_with, maybe_autoheal,
}
use dark_noc.Python.{Python}

-- The calls of `maybe_autoheal`, the oldest first.
unfoldable pub rounds :
    (ℕ → ℕ)
    → ℕ
    → (String → Bool)
    → (ℕ → String → Bool)
    → Python
    → List (Dict × List ServiceReport)
    → Healing
    → Healing
rounds clock second allowed restarted py [] s = s
rounds clock second allowed restarted py (r ∷ rs) s =
    rounds clock second allowed restarted py rs
      (maybe_autoheal clock second allowed restarted py r.0 r.1 s)

-- The restarts of the hour before `now`.
abbrev pub in_hour : ℕ → ℕ → List ℕ → ℕ
in_hour second now stamps = length (where_rows (λ t. ltb now (t + 3600 * second)) stamps)

abbrev pub no_restarts : ℕ → Healing
no_restarts n = record { history = []; last_restart = λ s. 0; readings = n; log = [] }

in_hour-snoc :
    (second now t : ℕ) (xs : List ℕ)
    → in_hour second now (xs ++ t ∷ [])
      ≡ in_hour second now xs + (if ltb now (t + 3600 * second) then 1 else 0)
unfolding where_rows
in_hour-snoc second now t [] = ground arith
in_hour-snoc second now t (x ∷ xs) = ground (arith, in_hour-snoc second now t xs)

in_hour-last :
    (second now t : ℕ) (a b : List ℕ)
    → in_hour second now a ≡ in_hour second now b
    → in_hour second now (a ++ t ∷ []) ≡ in_hour second now (b ++ t ∷ [])
in_hour-last second now t a b e =
    omega (arith, e, in_hour-snoc second now t a, in_hour-snoc second now t b)

in_hour-length : (second now : ℕ) (xs : List ℕ) → in_hour second now xs ≤ length xs
unfolding where_rows
in_hour-length second now [] = omega arith
in_hour-length second now (x ∷ xs) = ground (arith, in_hour-length second now xs)

length-last : (t : ℕ) (xs : List ℕ) → length (xs ++ t ∷ []) ≡ suc (length xs)
length-last t [] = refl
length-last t (x ∷ xs) = ap suc (length-last t xs)

module _ (clock : ℕ → ℕ) (second : ℕ) (allowed : String → Bool)
    (restarted : ℕ → String → Bool) where
  -- The history has the restarts of the last hour, at most six of them.
  record IsKept (s : Healing) : Type 0 where
    few : length s.history ≤ 6
    recorded :
        (m : ℕ)
        → s.readings ≤ m
        → in_hour second (clock m) s.history ≡ in_hour second (clock m) s.log

  try_restart-IsKept :
      (service : String) (s : Healing)
      → length s.history < 6
      → IsKept s
      → IsKept (try_restart clock second allowed restarted service s)
  unfolding try_restart
  try_restart-IsKept service s h k = elim (Bool-cases (restarted s.readings service)) [
    | inl e ↦ rw e (record {
      few = omega (arith, h, length-last (clock (suc s.readings)) s.history);
      recorded = λ m b.
          in_hour-last second (clock m) (clock (suc s.readings)) s.history s.log
            (k.recorded m (omega arith));
    })
    | inr e ↦ rw e (record { few = k.few; recorded = λ m b. k.recorded m (omega arith) })
  ]

  heal_service-IsKept :
      (cooldown maximum : ℕ) (service : String) (s : Healing)
      → maximum ≤ 6
      → IsKept s
      → IsKept (heal_service clock second allowed restarted cooldown maximum service s)
  unfolding heal_service
  heal_service-IsKept cooldown maximum service s h k = elim (Bool-cases (allowed service)) [
    | inl a ↦
        elim (Bool-cases (is_held clock second allowed restarted cooldown maximum service s)) [
          | inl e ↦
              rw a (rw e (record { few = k.few; recorded = λ m b. k.recorded m (omega arith) }))
          | inr e ↦ rw a (rw e (try_restart-IsKept service s (ground (arith, e, h)) k))
        ]
    | inr a ↦ rw a k
  ]

  heal-IsKept :
      (cooldown maximum : ℕ) (r : ServiceReport) (s : Healing)
      → maximum ≤ 6
      → IsKept s
      → IsKept (heal clock second allowed restarted cooldown maximum r s)
  unfolding heal
  heal-IsKept cooldown maximum r s h k = elim (Option-cases r.service) [
    | inl e ↦ rw e k
    | inr (service, e) ↦ elim (Bool-cases (not (str_eq r.status "down") || str_eq service "")) [
      | inl skip ↦ rw e (rw skip k)
      | inr broken ↦ rw e (rw broken (heal_service-IsKept cooldown maximum service s h k))
    ]
  ]

  heal_all-IsKept :
      (cooldown maximum : ℕ) (rs : List ServiceReport) (s : Healing)
      → maximum ≤ 6
      → IsKept s
      → IsKept (heal_all clock second allowed restarted cooldown maximum rs s)
  unfolding heal_all
  heal_all-IsKept cooldown maximum [] s h k = k
  heal_all-IsKept cooldown maximum (r ∷ rs) s h k =
      heal_all-IsKept cooldown maximum rs _ h (heal-IsKept cooldown maximum r s h k)

  module _ (steady : (i j : ℕ) → i ≤ j → clock i ≤ clock j) where
    fresh_history-later :
        (n : ℕ) (ts : List ℕ) → n ≤ (fresh_history clock second allowed restarted n ts).1
    unfolding fresh_history
    fresh_history-later n [] = omega arith
    fresh_history-later n (t ∷ ts) = omega (arith, fresh_history-later (suc n) ts)

    fresh_history-few :
        (n : ℕ) (ts : List ℕ)
        → length (fresh_history clock second allowed restarted n ts).0 ≤ length ts
    unfolding fresh_history
    fresh_history-few n [] = omega arith
    fresh_history-few n (t ∷ ts) = ground (arith, fresh_history-few (suc n) ts)

    -- A stamp that is dropped stays older than an hour.
    fresh_history-recorded :
        (m n : ℕ) (ts : List ℕ)
        → (fresh_history clock second allowed restarted n ts).1 ≤ m
        → in_hour second (clock m) (fresh_history clock second allowed restarted n ts).0
          ≡ in_hour second (clock m) ts
    unfolding fresh_history where_rows
    fresh_history-recorded m n [] b = refl
    fresh_history-recorded m n (t ∷ ts) b =
        let order : clock n ≤ clock m =
          steady n m (omega (arith, b, fresh_history-later (suc n) ts)) in
        ground (arith, order, fresh_history-recorded m (suc n) ts b)

    heal_with-IsKept :
        (cooldown restarts : Option ℕ) (rs : List ServiceReport) (s : Healing)
        → IsKept s
        → IsKept (heal_with clock second allowed restarted cooldown restarts rs s)
    unfolding heal_with
    heal_with-IsKept none restarts rs s k = k
    heal_with-IsKept (some c) none rs s k = k
    heal_with-IsKept (some c) (some n) rs s k =
        heal_all-IsKept (max c 60) (min (max n 1) 6) rs _ (omega arith) (record {
          few = omega (arith, k.few, fresh_history-few s.readings s.history);
          recorded = λ m b.
              fresh_history-recorded m s.readings s.history b
              ∙ k.recorded m (omega (arith, b, fresh_history-later s.readings s.history));
        })

    maybe_autoheal-IsKept :
        (py : Python) (settings : Dict) (rs : List ServiceReport) (s : Healing)
        → IsKept s
        → IsKept (maybe_autoheal clock second allowed restarted py settings rs s)
    unfolding maybe_autoheal
    maybe_autoheal-IsKept py settings rs s k =
        elim (Bool-cases (not (is_truthy (get "enabled" settings)))) [
          | inl off ↦ rw off k
          | inr on ↦ rw on (heal_with-IsKept _ _ rs s k)
        ]

    rounds-IsKept :
        (py : Python) (rs : List (Dict × List ServiceReport)) (s : Healing)
        → IsKept s
        → IsKept (rounds clock second allowed restarted py rs s)
    unfolding rounds
    rounds-IsKept py [] s k = k
    rounds-IsKept py (r ∷ rs) s k = rounds-IsKept py rs _ (maybe_autoheal-IsKept py r.0 r.1 s k)

    -- Auto-Heal never restarts services more than six times within an hour: whatever settings the
    -- Hub sends and whatever the reports say, after any number of rounds with a clock that does not
    -- go back, at most six of the restarts since the agent had none are less than an hour old.
    pub rounds-hourly :
        (py : Python) (rs : List (Dict × List ServiceReport)) (n m : ℕ)
        → (rounds clock second allowed restarted py rs (no_restarts n)).readings ≤ m
        → in_hour second (clock m) (rounds clock second allowed restarted py rs (no_restarts n)).log
          ≤ 6
    rounds-hourly py rs n m b =
        let kept =
          rounds-IsKept py rs (no_restarts n)
            (record { few = omega arith; recorded = λ m b. refl }) in
        let last = rounds clock second allowed restarted py rs (no_restarts n) in
        omega (arith, kept.few, kept.recorded m b, in_hour-length second (clock m) last.history)
