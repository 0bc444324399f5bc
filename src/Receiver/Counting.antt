-- ===== src/Receiver/Counting.antt =====
-- What the receiver has counted, whatever order its threads run in.
use webhook_relay_api.Prelude.{
  one_if, ℕ, suc, ◌+◌, ◌/◌, String, ◌≡◌, refl, sym, ap, ◌∙◌, inl, inr, Option, List, ◌∷◌, ◌==◌,
  length, length-append, if◌then◌else◌, arith, Bool-cases, eqb, leb, ltb, ◌&&◌, ◌++◌, [],
}
use webhook_relay_api.Prelude.Int.{ℤ}
use webhook_relay_api.Result.{Error, Result, ok, err, Result-cases}
use webhook_relay_api.Platform.{Platform}
use webhook_relay_api.Receiver.{
  ReceiverSettings, receiver_settings, Counters, Reply, not_found_reply, record_request,
  content_length, read_body, Begun, answered, numbered, begin_post, should_fail, end_post, Served,
  idle, begun, ended,
}
use webhook_relay_api.Receiver.Rates.{
  failing, failing_up_to, failing-middle, failing_up_to_lem, every_pos,
}

-- How often a number occurs.
abbrev pub times : ℕ → List ℕ → ℕ
times n [] = 0
times n (m ∷ l) = one_if (eqb n m) + times n l

times-middle :
    (n : ℕ) (before : List ℕ) (number : ℕ) (behind : List ℕ)
    → times n (before ++ number ∷ behind) ≡ one_if (eqb n number) + times n (before ++ behind)
times-middle n [] number behind = refl
times-middle n (m ∷ before) number behind = omega (arith, times-middle n before number behind)

-- A number of those from 1 to `taken` is one of those to the one before, or the last.
within_suc :
    (n taken : ℕ)
    → one_if (leb 1 n && leb n (suc taken))
      ≡ one_if (eqb n (suc taken)) + one_if (leb 1 n && leb n taken)
within_suc n taken = grind arith

before_suc : (n taken : ℕ) → one_if (leb 1 n && leb n taken) ≡ one_if (leb 1 n && ltb n (suc taken))
before_suc n taken = grind arith

apart_answers :
    {r : Reply} {c after : Counters} {number : ℕ} {body : List ℕ}
    → ◌≡◌ {A = Result Begun × Counters} (ok (answered r), c) (ok (numbered number body), after)
    → ⊥
apart_answers h = cc

apart_errors :
    {e : Error} {c after : Counters} {number : ℕ} {body : List ℕ}
    → ◌≡◌ {A = Result Begun × Counters} (err e, c) (ok (numbered number body), after)
    → ⊥
apart_errors h = cc

same_number :
    {c after : Counters} {n number : ℕ} {bytes body : List ℕ}
    → ◌≡◌ {A = Result Begun × Counters}
        (ok (numbered n bytes), c)
        (ok (numbered number body), after)
    → (number ≡ n) × (after ≡ c)
same_number h = (cc, cc)

module _ (p : Platform) (settings : ReceiverSettings) where
  -- A POST that has a number has taken the next one.
  begin_post_lem :
      (path : String) (header : Option String) (sent : List ℕ) (c after : Counters) (number : ℕ)
      (body : List ℕ)
      → begin_post p path header sent c ≡ (ok (numbered number body), after)
      → (number ≡ c.next_number) × (after ≡ record c { next_number = c.next_number + 1 })
  unfolding begin_post
  begin_post_lem path header sent c after number body h = elim (Bool-cases (path == "/ingest")) [
    | inr other ↦ absurd (apart_answers {r = not_found_reply} {c = c} (sym (rw other refl) ∙ h))
    | inl ingest ↦ elim (Result-cases (content_length p header)) [
      | inr (e, bad) ↦ absurd (apart_errors {e = e} {c = c} (sym (rw ingest (rw bad refl)) ∙ h))
      | inl (size, good) ↦
          same_number {bytes = read_body size sent} (sym (rw ingest (rw good refl)) ∙ h)
    ]
  ]

  -- The state of the counters after `taken` numbers.
  pub record Tally (c : Counters) (open_numbers : List ℕ) : Type 0 where
    pub taken : ℕ
    pub next : c.next_number ≡ suc taken
    pub total : c.requests_total + length open_numbers ≡ taken
    pub failed :
        c.requests_failed_total + failing settings open_numbers ≡ failing_up_to settings taken

  -- The numbers that are recorded, the last one first.
  abbrev pub recorded :
      {c : Counters} {open_numbers : List ℕ} → Served p settings c open_numbers → List ℕ
  recorded idle = []
  recorded (begun path header sent number body after h so_far) = recorded so_far
  recorded (ended number body before behind is_open so_far) = number ∷ recorded so_far

  end_post-total :
      (number : ℕ) (body : List ℕ) (c : Counters)
      → (end_post settings number body c).1.requests_total ≡ suc c.requests_total
  unfolding end_post record_request
  end_post-total number body c = elim (Bool-cases (should_fail settings number)) [
    | inl fail ↦ rw fail (omega arith)
    | inr pass ↦ rw pass (omega arith)
  ]

  recorded-length :
      {c : Counters} {open_numbers : List ℕ} (so_far : Served p settings c open_numbers)
      → length (recorded so_far) ≡ c.requests_total
  recorded-length idle = refl
  recorded-length (begun {c} path header sent number body after h so_far) =
      let (_, moved) = begin_post_lem path header sent c after number body h in
      recorded-length so_far ∙ sym (ap (λ x. x.requests_total) moved)
  recorded-length (ended {c} number body before behind is_open so_far) =
      ap suc (recorded-length so_far) ∙ sym (end_post-total number body c)

  taken_once :
      {c : Counters} {open_numbers : List ℕ} (so_far : Served p settings c open_numbers) (n : ℕ)
      → (taken : ℕ) × (c.next_number ≡ suc taken)
        × (times n (recorded so_far) + times n open_numbers ≡ one_if (leb 1 n && leb n taken))
  unfolding end_post record_request
  taken_once idle n = (0, refl, grind arith)
  taken_once (begun {c} {open_numbers} path header sent number body after h so_far) n =
      let (taken, next, counts) = taken_once so_far n in
      let (same, moved) = begin_post_lem path header sent c after number body h in
      (
        suc taken,
        ap (λ x. x.next_number) moved ∙ omega (arith, next),
        rw (same ∙ next) (omega (arith, counts, within_suc n taken)),
      )
  taken_once (ended {c} number body before behind is_open so_far) n =
      let (taken, next, counts) = taken_once so_far n in
      let more = ap (times n) is_open ∙ times-middle n before number behind in
      elim (Bool-cases (should_fail settings number)) [
        | inl fail ↦ (taken, rw fail next, omega (arith, counts, more))
        | inr pass ↦ (taken, rw pass next, omega (arith, counts, more))
      ]

  numbered_once :
      {c : Counters} {open_numbers : List ℕ} (so_far : Served p settings c open_numbers) (n : ℕ)
      → times n (recorded so_far) + times n open_numbers ≡ one_if (leb 1 n && ltb n c.next_number)
  numbered_once so_far n =
      let (taken, next, counts) = taken_once so_far n in counts ∙ rw next (before_suc n taken)

  served-Tally :
      {c : Counters} {open_numbers : List ℕ}
      → Served p settings c open_numbers
      → Tally c open_numbers
  unfolding end_post record_request
  served-Tally idle = record { taken = 0; next = refl; total = refl; failed = refl }
  served-Tally (begun {c} {open_numbers} path header sent number body after h so_far) =
      let t = served-Tally so_far in
      let (same, moved) = begin_post_lem path header sent c after number body h in
      record {
        taken = suc t.taken;
        next = ap (λ x. x.next_number) moved ∙ omega (arith, t.next);
        total =
            ap (λ x. x.requests_total + suc (length open_numbers)) moved ∙ omega (arith, t.total);
        failed =
            ap
              (λ x.
                x.requests_failed_total
                + (one_if (should_fail settings number) + failing settings open_numbers))
              moved
            ∙ rw (same ∙ t.next) (omega (arith, t.failed));
      }
  served-Tally (ended {c} {open_numbers} number body before behind is_open so_far) =
      let t = served-Tally so_far in
      let sizes = ap length is_open ∙ length-append before (number ∷ behind) in
      let rest = length-append before behind in
      let fails = ap (failing settings) is_open ∙ failing-middle settings before number behind in
      elim (Bool-cases (should_fail settings number)) [
        | inl fail ↦ record {
          taken = t.taken;
          next = rw fail t.next;
          total = rw fail (omega (arith, t.total));
          failed = rw fail (ground (arith, t.failed, fails));
        }
        | inr pass ↦ record {
          taken = t.taken;
          next = rw pass t.next;
          total = rw pass (omega (arith, t.total));
          failed = rw pass (ground (arith, t.failed, fails));
        }
      ]

-- Whatever requests there were since the start and in whatever order their threads ran: each number
-- from 1 to the one before the next is, exactly once, a number that is recorded or one that is
-- taken and still to be recorded, and no other number is. The requests in the metrics are as many
-- as the numbers that are recorded. In the mode `flaky` the requests that are recorded as failed
-- and those that are still to fail are, together, one in `fail_every` of all numbers that are
-- taken, rounded down; in another mode there are none.
pub served_counts :
    (p : Platform) (mode : String) (every : ℤ) {c : Counters} {open_numbers : List ℕ}
    (so_far : Served p (receiver_settings p mode every) c open_numbers)
    → ((n : ℕ)
        → times n (recorded p (receiver_settings p mode every) so_far) + times n open_numbers
          ≡ one_if (leb 1 n && ltb n c.next_number))
      × (length (recorded p (receiver_settings p mode every) so_far) ≡ c.requests_total)
      × (1 + (c.requests_total + length open_numbers) ≡ c.next_number)
      × (c.requests_failed_total + failing (receiver_settings p mode every) open_numbers ≡ (
          if (receiver_settings p mode every).mode == "flaky"
          then (c.requests_total + length open_numbers)
            / (receiver_settings p mode every).fail_every
          else 0))
unfolding receiver_settings
served_counts p mode every {c} {open_numbers} so_far =
    let settings = receiver_settings p mode every in
    let t = served-Tally p settings so_far in
    (
      λ n. numbered_once p settings so_far n,
      recorded-length p settings so_far,
      omega (arith, t.next, t.total),
      t.failed ∙ failing_up_to_lem settings t.taken (every_pos every) ∙ rw t.total refl,
    )
