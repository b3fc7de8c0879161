-- ===== src/Session/Compensation/Complete.antt =====
-- A log that `compensateIncomplete` (session/jsonl-session-repository.ts) returns is complete.
use echocoding_harness.Common.{
  ◌+◌, ◌≡◌, refl, ap, sym, ◌∙◌, subst, arith, Bool, true, false, ◌&&◌, ◌||◌, Option, none, some,
  List, [], ◌∷◌, ◌++◌, if◌then◌else◌, Text, text_eq_iff, mem_text, add_text, mem_text-add_text,
}
use echocoding_harness.Contracts.Error.{Outcome, ok, thrown}
use echocoding_harness.Contracts.Event.{Event, ToolCall, terminal_result, turn_failed}
use echocoding_harness.Agent.Recovery.{terminal_ids, add_terminal, requested_call, is_turn_terminal}
use echocoding_harness.Session.Compensation.{
  Repository, Log, start, after, appended, recovery_event, repair_call, repair_calls, fail_turns,
  fail_hung, compensate_incomplete, open_call, hung_result, ended_turns, with_turn, turn_of,
  started_turn, incomplete_from, incomplete_turn_ids, hang,
}

abbrev pub in_calls : List Text → Option ToolCall → Bool
in_calls terminals none = true
in_calls terminals (some c) = mem_text c.id terminals

-- Every request has its call among the terminal ones.
unfoldable pub answered : List Text → List Event → Bool
answered terminals [] = true
answered terminals (e ∷ es) = in_calls terminals (requested_call e.payload) && answered terminals es

abbrev in_turns : List Text → Option Text → Bool
in_turns turns none = true
in_turns turns (some t) = mem_text t turns

-- Every started turn is among the turns.
unfoldable pub ended : List Text → List Event → Bool
ended turns [] = true
ended turns (e ∷ es) = in_turns turns (started_turn e) && ended turns es

answered-append :
    (terminals : List Text) (es : List Event) (e : Event)
    → answered terminals (es ++ e ∷ [])
      ≡ (answered terminals es && in_calls terminals (requested_call e.payload))
unfolding answered
answered-append terminals [] e = ground arith
answered-append terminals (x ∷ es) e = ground (arith, answered-append terminals es e)

ended-append :
    (turns : List Text) (es : List Event) (e : Event)
    → ended turns (es ++ e ∷ []) ≡ (ended turns es && in_turns turns (started_turn e))
unfolding ended
ended-append turns [] e = ground arith
ended-append turns (x ∷ es) e = ground (arith, ended-append turns es e)

pub terminal_ids-append :
    (ids : List Text) (es : List Event) (e : Event)
    → terminal_ids ids (es ++ e ∷ [])
      ≡ add_terminal (terminal_result e.payload) (terminal_ids ids es)
unfolding terminal_ids
terminal_ids-append ids [] e = refl
terminal_ids-append ids (x ∷ es) e =
    terminal_ids-append (add_terminal (terminal_result x.payload) ids) es e

with_turn-mem :
    (k : Text) (o : Option Text) (ts us : List Text)
    → mem_text k ts ≡ mem_text k us
    → mem_text k (with_turn o ts) ≡ mem_text k (with_turn o us)
unfolding mem_text
with_turn-mem k none ts us h = h
with_turn-mem k (some t) ts us h = ground (arith, h)

-- An event at the end adds its turn, if it ends one.
ended_turns-append :
    (k : Text) (es : List Event) (e : Event)
    → mem_text k (ended_turns (es ++ e ∷ []))
      ≡ mem_text k (with_turn (turn_of (is_turn_terminal e.payload) e.turn_id) (ended_turns es))
unfolding ended_turns mem_text
ended_turns-append k [] e = refl
ended_turns-append k (x ∷ es) e =
    with_turn-mem k (turn_of (is_turn_terminal x.payload) x.turn_id) _ _ (ended_turns-append k es e)
    ∙ swap k (turn_of (is_turn_terminal x.payload) x.turn_id)
        (turn_of (is_turn_terminal e.payload) e.turn_id) (ended_turns es)
  where
    swap :
        (k : Text) (o p : Option Text) (ts : List Text)
        → mem_text k (with_turn o (with_turn p ts)) ≡ mem_text k (with_turn p (with_turn o ts))
    swap k none p ts = refl
    swap k (some t) none ts = refl
    swap k (some t) (some u) ts = ground arith

-- When every started turn ended, none hangs.
incomplete_from-ended :
    (turns : List Text) (es : List Event) (seen : List Text)
    → ended turns es ≡ true
    → incomplete_from turns es seen ≡ []
unfolding incomplete_from ended
incomplete_from-ended turns [] seen h = refl
incomplete_from-ended turns (e ∷ es) seen h =
    by_turn (started_turn e) (ground (arith, h))
      (incomplete_from-ended turns es seen (ground (arith, h)))
  where
    by_turn :
        (o : Option Text)
        → in_turns turns o ≡ true
        → incomplete_from turns es seen ≡ []
        → hang o turns seen (incomplete_from turns es) ≡ []
    by_turn none h rest = rest
    by_turn (some t) h rest = ground (arith, h, rest)

after-ok :
    {W A B : Type 0} (r : Outcome A × W) (f : A → W → Outcome B × W) (b : B)
    → (after r f).0 ≡ ok b
    → (a : A) × (r.0 ≡ ok a) × ((f a r.1).0 ≡ ok b)
after-ok (ok a, w) f b h = (a, refl, h)
after-ok (thrown e, w) f b h = absurd (cc h)

-- How a log grows in the loop over the requests.
record Repairs (log log' : Log) : Type 0 where
  synced :
      log.terminals ≡ terminal_ids [] log.repaired → log'.terminals ≡ terminal_ids [] log'.repaired
  keeps : (k : Text) → mem_text k log.terminals ≡ true → mem_text k log'.terminals ≡ true
  asks_no_more :
      (ts : List Text) → answered ts log.repaired ≡ true → answered ts log'.repaired ≡ true

Repairs-refl : (log : Log) → Repairs log log
Repairs-refl log = record { synced = λ h. h; keeps = λ k h. h; asks_no_more = λ ts h. h }

Repairs-trans : (a b c : Log) → Repairs a b → Repairs b c → Repairs a c
Repairs-trans a b c f g = record {
  synced = λ h. g.synced (f.synced h);
  keeps = λ k h. g.keeps k (f.keeps k h);
  asks_no_more = λ ts h. g.asks_no_more ts (f.asks_no_more ts h);
}

-- The log with an event at its end.
abbrev extended : Log → List Text → Event → Log
extended log terminals e = record {
  repaired = log.repaired ++ e ∷ [];
  terminals = terminals;
  sequence = log.sequence + 1;
}

Repairs-extended :
    (log : Log) (terminals : List Text) (e : Event)
    → requested_call e.payload ≡ none
    → terminals ≡ add_terminal (terminal_result e.payload) log.terminals
    → ((k : Text) → mem_text k log.terminals ≡ true → mem_text k terminals ≡ true)
    → Repairs log (extended log terminals e)
Repairs-extended log terminals e no_request same keeps = record {
  synced = λ h.
      same
      ∙ ap (add_terminal (terminal_result e.payload)) h
      ∙ sym (terminal_ids-append [] log.repaired e);
  keeps = keeps;
  asks_no_more = λ ts h.
      answered-append ts log.repaired e
      ∙ both (answered ts log.repaired) (requested_call e.payload) ts h no_request;
}
  where
    both :
        (b : Bool) (o : Option ToolCall) (ts : List Text)
        → b ≡ true
        → o ≡ none
        → (b && in_calls ts o) ≡ true
    both b none ts h n = ground (arith, h)
    both b (some c) ts h n = absurd (cc n)

module _ {W : Type 0} (repository : Repository W) (session : Text) where
  appended-ok :
      (log log' : Log) (terminals : List Text) (e : Event) (w : W)
      → (appended repository session log terminals (e, w)).0 ≡ ok log'
      → extended log terminals e ≡ log'
  appended-ok log log' terminals e w h =
      let (_, _, same) = after-ok (repository.append e w) _ log' h in cc same

  add_text-keeps :
      (i k : Text) (ts : List Text) → mem_text k ts ≡ true → mem_text k (add_text i ts) ≡ true
  add_text-keeps i k ts h = ground (arith, h, mem_text-add_text i k ts)

  -- A request whose call was open, or not, is answered after its repair.
  repair_call-Repairs :
      (e : Event) (o : Option ToolCall) (log log' : Log) (w : W)
      → (repair_call repository session e (open_call o log.terminals) log w).0 ≡ ok log'
      → Repairs log log' × (in_calls log'.terminals o ≡ true)
  unfolding terminal_result
  repair_call-Repairs e none log log' w h = (subst (Repairs log) (cc h) (Repairs-refl log), refl)
  repair_call-Repairs e (some c) log log' w h = by_test (mem_text c.id log.terminals) refl h
    where
      by_test :
          (b : Bool)
          → mem_text c.id log.terminals ≡ b
          → (repair_call repository session e (if b then none else some c) log w).0 ≡ ok log'
          → Repairs log log' × (mem_text c.id log'.terminals ≡ true)
      by_test true known h =
          subst (λ l. Repairs log l × (mem_text c.id l.terminals ≡ true)) (cc h)
            (Repairs-refl log, known)
      by_test false known h =
          subst (λ l. Repairs log l × (mem_text c.id l.terminals ≡ true))
            (appended-ok log log' (add_text c.id log.terminals) _ _ h)
            (
              Repairs-extended log (add_text c.id log.terminals) _ refl refl
                  (λ k. add_text-keeps c.id k log.terminals),
              ground (arith, mem_text-add_text c.id c.id log.terminals, text_eq_iff c.id c.id),
            )

  in_calls-keeps :
      (log log' : Log) (o : Option ToolCall)
      → Repairs log log'
      → in_calls log.terminals o ≡ true
      → in_calls log'.terminals o ≡ true
  in_calls-keeps log log' none r h = refl
  in_calls-keeps log log' (some c) r h = r.keeps c.id h

  repair_calls-Repairs :
      (es : List Event) (log log' : Log) (w : W)
      → (repair_calls repository session es log w).0 ≡ ok log'
      → Repairs log log' × (answered log'.terminals es ≡ true)
  unfolding repair_calls answered
  repair_calls-Repairs [] log log' w h = (subst (Repairs log) (cc h) (Repairs-refl log), refl)
  repair_calls-Repairs (e ∷ es) log log' w h =
      let first =
        repair_call repository session e (open_call (requested_call e.payload) log.terminals) log
          w in
      let (mid, now, later) = after-ok first (repair_calls repository session es) log' h in
      let (r, done) = repair_call-Repairs e (requested_call e.payload) log mid w now in
      let (rs, others) = repair_calls-Repairs es mid log' first.1 later in
      (
        Repairs-trans log mid log' r rs,
        ground (arith, in_calls-keeps mid log' (requested_call e.payload) rs done, others),
      )

-- How a log grows in the loop over the hung turns.
record Fails (log log' : Log) : Type 0 where
  repairs : Repairs log log'
  ends :
      (k : Text)
      → mem_text k (ended_turns log.repaired) ≡ true
      → mem_text k (ended_turns log'.repaired) ≡ true
  starts_no_more : (ts : List Text) → ended ts log.repaired ≡ true → ended ts log'.repaired ≡ true

Fails-refl : (log : Log) → Fails log log
Fails-refl log = record { repairs = Repairs-refl log; ends = λ k h. h; starts_no_more = λ ts h. h }

Fails-trans : (a b c : Log) → Fails a b → Fails b c → Fails a c
Fails-trans a b c f g = record {
  repairs = Repairs-trans a b c f.repairs g.repairs;
  ends = λ k h. g.ends k (f.ends k h);
  starts_no_more = λ ts h. g.starts_no_more ts (f.starts_no_more ts h);
}

-- All the turns are among those that ended.
all_in : List Text → List Text → Bool
all_in turns [] = true
all_in turns (t ∷ ts) = mem_text t turns && all_in turns ts

module _ {W : Type 0} (repository : Repository W) (session : Text) where
  abbrev end_of : Text → Log → W → Event × W
  end_of turn log w =
      recovery_event repository session (log.sequence + 1)
        (turn_failed (hung_result session turn log.repaired)) (some turn) none w

  Fails-end :
      (turn : Text) (log : Log) (w : W)
      → Fails log (extended log log.terminals (end_of turn log w).0)
  unfolding terminal_result mem_text
  Fails-end turn log w = record {
    repairs = Repairs-extended log log.terminals (end_of turn log w).0 refl refl (λ k h. h);
    ends = λ k h. ended_turns-append k log.repaired (end_of turn log w).0 ∙ ground (arith, h);
    starts_no_more = λ ts h. ended-append ts log.repaired (end_of turn log w).0 ∙ ground (arith, h);
  }

  ends-turn :
      (turn : Text) (log : Log) (w : W)
      → mem_text turn (ended_turns (log.repaired ++ (end_of turn log w).0 ∷ [])) ≡ true
  unfolding mem_text
  ends-turn turn log w =
      ended_turns-append turn log.repaired (end_of turn log w).0
      ∙ ground (arith, text_eq_iff turn turn)

  fail_turns-Fails :
      (turns : List Text) (log log' : Log) (w : W)
      → (fail_turns repository session turns log w).0 ≡ ok log'
      → Fails log log' × (all_in (ended_turns log'.repaired) turns ≡ true)
  unfolding fail_turns all_in
  fail_turns-Fails [] log log' w h = (subst (Fails log) (cc h) (Fails-refl log), refl)
  fail_turns-Fails (turn ∷ turns) log log' w h =
      let first = appended repository session log log.terminals (end_of turn log w) in
      let (mid, now, later) = after-ok first (fail_turns repository session turns) log' h in
      let grown =
        appended-ok repository session log mid log.terminals (end_of turn log w).0
          (end_of turn log w).1 now in
      let (rest, others) = fail_turns-Fails turns mid log' first.1 later in
      let step = subst (Fails log) grown (Fails-end turn log w) in
      let done =
        subst (λ l. mem_text turn (ended_turns l.repaired) ≡ true) grown (ends-turn turn log w) in
      (Fails-trans log mid log' step rest, ground (arith, rest.ends turn done, others))

-- One started turn: it is among `more`, and the turns that hang after it still are.
hang-all_in :
    (more turns seen : List Text) (o : Option Text) (rest : List Text → List Text)
    → ((k : Text) → mem_text k turns ≡ true → mem_text k more ≡ true)
    → ((k : Text) → mem_text k seen ≡ true → mem_text k more ≡ true)
    → all_in more (hang o turns seen rest) ≡ true
    → (in_turns more o ≡ true)
      × ((seen' : List Text) × ((k : Text) → mem_text k seen' ≡ true → mem_text k more ≡ true)
          × (all_in more (rest seen') ≡ true))
unfolding all_in mem_text
hang-all_in more turns seen none rest f g h = (refl, (seen, g, h))
hang-all_in more turns seen (some t) rest f g h =
    by_test (mem_text t turns || mem_text t seen) refl h
  where
    by_test :
        (b : Bool)
        → (mem_text t turns || mem_text t seen) ≡ b
        → all_in more (if b then rest seen else t ∷ rest (t ∷ seen)) ≡ true
        → (mem_text t more ≡ true)
          × ((seen' : List Text) × ((k : Text) → mem_text k seen' ≡ true → mem_text k more ≡ true)
              × (all_in more (rest seen') ≡ true))
    by_test true known h = (ground (arith, known, f t, g t), (seen, g, h))
    by_test false new h = (
      ground (arith, h),
      (
        t ∷ seen,
        (λ k m. ground (arith, m, g k, h, text_eq_iff t k, ap (λ (i : Text). mem_text i more))),
        ground (arith, h),
      ),
    )

-- A started turn ended, was seen before, or hangs.
ended-incomplete :
    (turns more seen : List Text) (es : List Event)
    → ((k : Text) → mem_text k turns ≡ true → mem_text k more ≡ true)
    → ((k : Text) → mem_text k seen ≡ true → mem_text k more ≡ true)
    → all_in more (incomplete_from turns es seen) ≡ true
    → ended more es ≡ true
unfolding incomplete_from ended
ended-incomplete turns more seen [] f g h = refl
ended-incomplete turns more seen (e ∷ es) f g h =
    let (here, (seen', g', later)) =
      hang-all_in more turns seen (started_turn e) (incomplete_from turns es) f g h in
    ground (arith, here, ended-incomplete turns more seen' es f g' later)

in_calls_mono :
    (ts us : List Text) (o : Option ToolCall)
    → ((k : Text) → mem_text k ts ≡ true → mem_text k us ≡ true)
    → in_calls ts o ≡ true
    → in_calls us o ≡ true
in_calls_mono ts us none f h = refl
in_calls_mono ts us (some c) f h = f c.id h

answered_mono :
    (ts us : List Text) (es : List Event)
    → ((k : Text) → mem_text k ts ≡ true → mem_text k us ≡ true)
    → answered ts es ≡ true
    → answered us es ≡ true
unfolding answered
answered_mono ts us [] f h = refl
answered_mono ts us (e ∷ es) f h =
    ground (arith, h, in_calls_mono ts us (requested_call e.payload) f, answered_mono ts us es f)

-- What a complete log shows: each request has its terminal event, and no turn hangs.
pub record Complete (log : Log) : Type 0 where
  pub requests_answered : answered (terminal_ids [] log.repaired) log.repaired ≡ true
  pub no_turn_hangs : incomplete_turn_ids log.repaired ≡ []

module _ {W : Type 0} (repository : Repository W) (session : Text) where
  -- A log that is returned when a session is resumed has a terminal event for each tool request, and
  -- none of its turns is without a terminal event.
  pub compensate_incomplete-Complete :
      (events : List Event) (log : Log) (w : W)
      → (compensate_incomplete repository session events w).0 ≡ ok log
      → Complete log
  unfolding compensate_incomplete incomplete_turn_ids mem_text
  compensate_incomplete-Complete events log w h =
      let first = repair_calls repository session events (start events) w in
      let (mid, now, later) = after-ok first (fail_hung repository session) log h in
      let (r, asked) = repair_calls-Repairs repository session events (start events) mid w now in
      let (f, all_ended) =
        fail_turns-Fails repository session (incomplete_turn_ids mid.repaired) mid log first.1
          later in
      let all_asked = f.repairs.asks_no_more log.terminals (
        r.asks_no_more log.terminals
          (answered_mono mid.terminals log.terminals events f.repairs.keeps asked)) in
      record {
        requests_answered =
            subst (λ ts. answered ts log.repaired ≡ true) (f.repairs.synced (r.synced refl))
              all_asked;
        no_turn_hangs = incomplete_from-ended (ended_turns log.repaired) log.repaired [] (
            f.starts_no_more (ended_turns log.repaired) (
              ended-incomplete (ended_turns mid.repaired) (ended_turns log.repaired) [] mid.repaired
                f.ends (λ k m. absurd (cc m)) all_ended));
      }
