-- ===== src/Config/Laws.antt =====
-- What the settings guarantee, whatever the environment holds.
use webhook_relay_api.Prelude.{
  ◌≤◌, String, ◌≡◌, refl, sym, ap, subst, ◌∙◌, ◌↔◌, inl, inr, true, false, some, List, [], ◌∷◌,
  arith, keep, map, truthy, IsIn, Bool-cases, keep-true, keep-false,
}
use webhook_relay_api.Prelude.Int.{ℤ, pos, negsuc}
use webhook_relay_api.Result.{Result, ok, err, ◌>>=◌}
use webhook_relay_api.Text.{strip, split}
use webhook_relay_api.Platform.{Platform}
use webhook_relay_api.Config.{
  csv_set, Settings, at_least_one, Environment, getenv, env_bool, int_or_raise, optional_int,
  get_settings,
}

one-le-at_least_one : (n : ℤ) → 1 ≤ at_least_one n
one-le-at_least_one (pos n) = ground arith
one-le-at_least_one (negsuc n) = omega arith

abbrev Bounded : Result Settings → Type 0
Bounded (ok s) = (1 ≤ s.relay_worker_concurrency) × (1 ≤ s.relay_queue_size)
Bounded (err e) = Unit

bind-Bounded :
    {A : Type 0} (m : Result A) (f : A → Result Settings)
    → ((a : A) → Bounded (f a))
    → Bounded (m >>= f)
bind-Bounded (ok a) f h = h a
bind-Bounded (err e) f h = tt

-- Settings that could be read have one worker and room for one job at least, whatever numbers the
-- environment holds.
pub get_settings-bounds :
    (p : Platform) (env : Environment) (settings : Settings)
    → get_settings p env ≡ ok settings
    → (1 ≤ settings.relay_worker_concurrency) × (1 ≤ settings.relay_queue_size)
unfolding get_settings
get_settings-bounds p env settings h = subst Bounded h (read env)
  where
    read : (env : Environment) → Bounded (get_settings p env)
    read env = bind-Bounded (int_or_raise p (getenv env "APP_PORT" "8000")) _ λ port.
        bind-Bounded (int_or_raise p (getenv env "MAX_BODY_BYTES" "1048576")) _ λ bytes.
          bind-Bounded (env_bool p (env "RELAY_ALLOW_PRIVATE_IPS") false) _ λ private.
            bind-Bounded (int_or_raise p (getenv env "RELAY_WORKER_CONCURRENCY" "8")) _ λ workers.
              bind-Bounded (int_or_raise p (getenv env "RELAY_QUEUE_SIZE" "1000")) _ λ size.
                bind-Bounded (optional_int p (strip (getenv env "EVENT_RETENTION_DAYS" ""))) _
                  λ days. (one-le-at_least_one workers, one-le-at_least_one size)

-- A stripped item that is not empty.
abbrev pub IsItem : String → List String → Type 0
IsItem x items = (item : String) × IsIn item items × (strip item ≡ x) × (truthy x ≡ true)

abbrev stripped : List String → List String
stripped items = map strip (keep (λ item. truthy (strip item)) items)

module _ (x i : String) (items : List String) where
  weaken : IsItem x items → IsItem x (i ∷ items)
  weaken (item, m, same, full) = (item, inr m, same, full)

  IsItem-of_head :
      truthy (strip i) ≡ true
      → (IsIn x (stripped items) → IsItem x items)
      → IsIn x (strip i ∷ stripped items)
      → IsItem x (i ∷ items)
  IsItem-of_head full rest (inl e) = (i, inl refl, sym e, ap truthy e ∙ full)
  IsItem-of_head full rest (inr m) = weaken (rest m)

  IsIn-of_head :
      (IsItem x items → IsIn x (stripped items))
      → IsItem x (i ∷ items)
      → IsIn x (stripped (i ∷ items))
  IsIn-of_head rest (item, inl e, same, full) =
      let here : strip i ≡ x = ap strip (sym e) ∙ same in
      subst (λ l. IsIn x (map strip l))
        (sym (keep-true (λ j. truthy (strip j)) i items (ap truthy here ∙ full))) (inl (sym here))
  IsIn-of_head rest (item, inr m, same, full) = elim (Bool-cases (truthy (strip i))) [
    | inl yes_i ↦
        subst (λ l. IsIn x (map strip l)) (sym (keep-true (λ j. truthy (strip j)) i items yes_i))
          (inr (rest (item, m, same, full)))
    | inr no_i ↦
        subst (λ l. IsIn x (map strip l)) (sym (keep-false (λ j. truthy (strip j)) i items no_i))
          (rest (item, m, same, full))
  ]

IsItem-of_stripped : (x : String) (items : List String) → IsIn x (stripped items) → IsItem x items
IsItem-of_stripped x [] m = elim m [ ]
IsItem-of_stripped x (i ∷ items) m = elim (Bool-cases (truthy (strip i))) [
  | inl yes_i ↦
      IsItem-of_head x i items yes_i (IsItem-of_stripped x items)
        (subst (λ l. IsIn x (map strip l)) (keep-true (λ j. truthy (strip j)) i items yes_i) m)
  | inr no_i ↦ weaken x i items (
      IsItem-of_stripped x items
        (subst (λ l. IsIn x (map strip l)) (keep-false (λ j. truthy (strip j)) i items no_i) m))
]

IsIn-of_item : (x : String) (items : List String) → IsItem x items → IsIn x (stripped items)
IsIn-of_item x [] (item, m, same, full) = elim m [ ]
IsIn-of_item x (i ∷ items) found = IsIn-of_head x i items (IsIn-of_item x items) found

-- The members of a comma-separated variable that is set are its items, stripped, without the empty
-- ones.
pub csv_set_iff :
    (value x : String)
    → truthy value ≡ true
    → IsIn x (csv_set (some value)) ↔ IsItem x (split b',' value)
unfolding csv_set
csv_set_iff value x set =
    rw set (IsItem-of_stripped x (split b',' value), IsIn-of_item x (split b',' value))
