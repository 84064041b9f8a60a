-- ===== src/Scheduler/Turns.antt =====
-- The switches of p2/scheduler.c keep one thread running at the most.
use jitcompilation.Prelude.{
  ℕ, zero, suc, ◌+◌, ◌<◌, ◌≡◌, ◌≢◌, inl, inr, refl, sym, ap, ◌∙◌, subst, Bool, true, false, Option,
  none, some, List, [], ◌∷◌, length, length-set, get_elem?, get_elem?-set_self, get_elem?-set_ne,
  set, arith, ℕ_discrete, Bool-cases, Option-cases,
}
use jitcompilation.Scheduler.Threads.{
  Status, created, running, sleeping, terminated, Scheduler, is_ready, next, is_same, or_head,
  Candidate, thread, search_from, start_of, thread_candidate, dispatch, set_status,
  scheduler_create, destroy, Phase, before, scheduling, working, after, Step, executes, dispatches,
  ends, yields, interrupts, returns, prepares, spawns, Reaches, stays, moves,
}
use jitcompilation.Scheduler.Choice.{IsReady}

Chosen : List Status → Candidate → Type 0
Chosen ts (thread c) = IsReady ts c
Chosen ts _ = Unit

search_from-Chosen :
    (ts : List Status) (ref : Option ℕ) (f : ℕ) (c : Option ℕ) → Chosen ts (search_from ts ref f c)
unfolding search_from Chosen
search_from-Chosen ts ref zero c = tt
search_from-Chosen ts ref (suc f) c = elim (Option-cases (get_elem? ts (or_head c))) [
  | inl e ↦ rw (e, search_from) tt
  | inr (s, e) ↦ elim (Bool-cases (is_ready s)) [
    | inl ready ↦ rw (e, search_from) (rw (ready, search_from) (s, e, ready))
    | inr busy ↦ elim (Bool-cases (is_same (next ts (or_head c)) ref)) [
      | inl same ↦ rw (e, search_from) (rw (busy, search_from) (rw (same, search_from) tt))
      | inr other ↦
          rw (e, search_from)
            (rw (busy, search_from)
              (rw (other, search_from) (search_from-Chosen ts ref f (next ts (or_head c)))))
    ]
  ]
]

abbrev pub NoneRuns : List Status → Type 0
NoneRuns ts = (j : ℕ) → get_elem? ts j ≢ some running

-- In a thread, the current thread runs and no other; elsewhere none does.
abbrev pub OneRuns : Phase → Scheduler → Type 0
OneRuns working s =
    (c : ℕ) × (s.curr_thread ≡ some c)
    × (c < length s.threads)
    × (get_elem? s.threads c ≡ some running)
    × ((j : ℕ) → j ≢ c → get_elem? s.threads j ≢ some running)
OneRuns before s = NoneRuns s.threads
OneRuns scheduling s = NoneRuns s.threads
OneRuns after s = NoneRuns s.threads

in_list : (ts : List Status) (j : ℕ) {s : Status} → get_elem? ts j ≡ some s → j < length ts
in_list [] j e = absurd (ground (arith, e))
in_list (y ∷ ts) zero e = omega arith
in_list (y ∷ ts) (suc j) e = omega (arith, in_list ts j e)

status_there : {a b : Status} → ◌≡◌ {A = Option Status} (some a) (some b) → a ≡ b
status_there {a} e = ap (λ o. elim o [ none ↦ a | some x ↦ x ]) e

dispatch-OneRuns :
    (s : Scheduler) (c : ℕ)
    → thread_candidate s ≡ thread c
    → NoneRuns s.threads
    → OneRuns working (dispatch s c)
unfolding thread_candidate dispatch Chosen
dispatch-OneRuns s c e h =
    let (status, there, ready) =
      subst (Chosen s.threads) e
        (search_from-Chosen s.threads (start_of s) (length s.threads + 1) (start_of s)) in
    let bound = in_list s.threads c there in
    (
      c,
      refl,
      omega (arith, length-set s.threads c running, bound),
      get_elem?-set_self s.threads c running bound,
      λ j ne e'. h j (sym (get_elem?-set_ne s.threads running (λ q. ne (sym q))) ∙ e'),
    )

leave-NoneRuns :
    (status : Status) (s : Scheduler)
    → status ≢ running
    → OneRuns working s
    → NoneRuns (set_status status s).threads
unfolding set_status
leave-NoneRuns status s other (c, curr, bound, there, others) =
    rw (curr, set_status)
      λ j e. elim (ℕ_discrete j c) [
        | yes same ↦ other (
            status_there (
              sym (get_elem?-set_self s.threads c status bound)
              ∙ (ap (get_elem? (set s.threads c status)) (sym same) ∙ e)))
        | no ne ↦ others j ne (sym (get_elem?-set_ne s.threads status (λ q. ne (sym q))) ∙ e)
      ]

interrupt-NoneRuns :
    (s : Scheduler) (c : ℕ)
    → s.curr_thread ≡ some c
    → NoneRuns s.threads
    → NoneRuns (set_status sleeping s).threads
unfolding set_status
interrupt-NoneRuns s c curr h =
    rw (curr, set_status)
      λ j e. elim (ℕ_discrete j c) [
        | yes same ↦
            let bound : c < length s.threads = omega (
              arith,
              same,
              in_list (set s.threads c sleeping) j e,
              length-set s.threads c sleeping,
            ) in
            let asleep =
              sym (get_elem?-set_self s.threads c sleeping bound)
              ∙ (ap (get_elem? (set s.threads c sleeping)) (sym same) ∙ e) in
            cc (status_there asleep)
        | no ne ↦ h j (sym (get_elem?-set_ne s.threads sleeping (λ q. ne (sym q))) ∙ e)
      ]

created-NoneRuns : (ts : List Status) → NoneRuns ts → NoneRuns (created ∷ ts)
created-NoneRuns ts h zero = λ e. cc
created-NoneRuns ts h (suc j) = h j

create-OneRuns :
    (m : Bool) (s : Scheduler) → OneRuns working s → OneRuns working (scheduler_create m s).1
unfolding scheduler_create
create-OneRuns false s h = h
create-OneRuns true s (c, curr, bound, there, others) = (
  suc c,
  ap (λ o. elim o [ none ↦ none | some x ↦ some (suc x) ]) curr,
  omega arith,
  there,
  others_after,
)
  where
    others_after : (j : ℕ) → j ≢ suc c → get_elem? (created ∷ s.threads) j ≢ some running
    others_after zero ne = λ e. cc
    others_after (suc j) ne = others j (λ e. ne (ap suc e))

Step-OneRuns : {p q : Phase} {s t : Scheduler} → Step p s q t → OneRuns p s → OneRuns q t
Step-OneRuns executes h = h
Step-OneRuns (dispatches {s} {c} e) h = dispatch-OneRuns s c e h
Step-OneRuns (ends e) h = unfold destroy in λ j e'. cc
Step-OneRuns (yields {s}) h = leave-NoneRuns sleeping s (λ e. cc) h
Step-OneRuns (interrupts {s} {c} curr) h = interrupt-NoneRuns s c curr h
Step-OneRuns (returns {s}) h = leave-NoneRuns terminated s (λ e. cc) h
Step-OneRuns (prepares {s} true) h = unfold scheduler_create in created-NoneRuns s.threads h
Step-OneRuns (prepares {s} false) h = unfold scheduler_create in h
Step-OneRuns (spawns {s} m) h = create-OneRuns m s h

-- From the start, with no threads, every state that the switches reach has one thread running where
-- the processor is in a thread, the current one, and none elsewhere.
pub Reaches-OneRuns :
    {p : Phase} {s : Scheduler}
    → Reaches before (record { threads = []; curr_thread = none }) p s
    → OneRuns p s
Reaches-OneRuns stays = λ j e. cc
Reaches-OneRuns (moves r step) = Step-OneRuns step (Reaches-OneRuns r)
