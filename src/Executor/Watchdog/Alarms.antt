-- ===== src/Executor/Watchdog/Alarms.antt =====
-- When the watchdog of src/dstudio_task_executor.c trips, by the lines that it has seen.
use dstudio.Base.{
  ℕ, suc, ◌≤◌, ◌≡◌, ◌⊎◌, ◌↔◌, inl, inr, refl, sym, ap, Bool, true, false, not, ◌&&◌, ◌||◌, List, [],
  ◌∷◌, ◌++◌, Option, some, none, Str, if◌then◌else◌, ◌==◌, ==_iff, leb, length, arith, Bool-cases,
}
use dstudio.Policy.Digest.{fnv1a64_bytes}
use dstudio.Executor.Watchdog.{
  Watch, is_call_line, is_result_line, observe_call, observe_event_line, observe_lines,
  observe_result, repeats, stable_part, strip_separator, watchdog_trip, weigh_call,
}

-- The signature of a tool call, and of a result, where a line is one.
abbrev pub call_signature : Str → Option ℕ
call_signature line =
    let event = strip_separator line in
    if is_call_line event then some (fnv1a64_bytes 0 (stable_part true event)) else none

abbrev pub result_signature : Str → Option ℕ
result_signature line =
    let event = strip_separator line in
    if is_call_line event
    then none
    else if is_result_line event
    then some (fnv1a64_bytes 0 (stable_part false event))
    else none

abbrev pub push : Option ℕ → List ℕ → List ℕ
push none seen = seen
push (some signature) seen = signature ∷ seen

-- The signatures of the lines on top of those seen before, the newest first.
abbrev pub newest : (Str → Option ℕ) → List Str → List ℕ → List ℕ
newest signature [] seen = seen
newest signature (line ∷ lines) seen = newest signature lines (push (signature line) seen)

abbrev pub FourAlike : List ℕ → Type 0
FourAlike seen = (s : ℕ) × (rest : List ℕ) × (seen ≡ s ∷ s ∷ s ∷ s ∷ rest)

-- 128 calls, four like calls in a row, or four like results.
abbrev pub IsAlarm : List ℕ → List ℕ → Type 0
IsAlarm calls results = (128 ≤ length calls) ⊎ (FourAlike calls ⊎ FourAlike results)

-- At some line there was an alarm.
pub record Alarmed (calls results : List ℕ) (lines : List Str) : Type 0 where
  pub front : List Str
  pub back : List Str
  pub whole : lines ≡ front ++ back
  pub alarm : IsAlarm (newest call_signature front calls) (newest result_signature front results)

-- The state in which an agent's turn begins.
pub record IsFresh (w : Watch) : Type 0 where
  pub quiet : w.node.watchdog_tripped ≡ false
  pub calls : w.node.watchdog_tool_calls ≡ 0
  pub same_call : w.same_call ≡ 0
  pub same_result : w.same_result ≡ 0

-- How many of the elements from the first on equal `x`.
abbrev follow : ℕ → List ℕ → ℕ
follow x [] = 0
follow x (y ∷ ys) = if x == y then suc (follow x ys) else 0

abbrev Run : ℕ → ℕ → List ℕ → Type 0
Run last same [] = same ≡ 0
Run last same (x ∷ xs) = (last ≡ x) × (same ≡ suc (follow x xs))

repeats-Run :
    (signature last same : ℕ) (seen : List ℕ)
    → Run last same seen
    → Run signature (repeats signature last same) (signature ∷ seen)
repeats-Run signature last same [] run = (refl, ground arith)
repeats-Run signature last same (x ∷ seen) run = (
  refl,
  elim (Bool-cases (signature == x)) [
    | inl hit ↦
        let eq : signature ≡ x = (==_iff signature x).0 hit in
        rw (run.0, run.1, hit) (ap (λ y. suc (suc (follow y seen))) (sym eq))
    | inr miss ↦ rw (run.0, miss) refl
  ],
)

four_of_follow : (x : ℕ) (xs : List ℕ) → 3 ≤ follow x xs → FourAlike (x ∷ xs)
four_of_follow x [] h = absurd (omega arith)
four_of_follow x (a ∷ []) h = absurd (short (x == a) h)
  where
    short : (b : Bool) → 3 ≤ (if b then 1 else 0) → ⊥
    short true h = omega arith
    short false h = omega arith
four_of_follow x (a ∷ b ∷ []) h = ground arith
four_of_follow x (a ∷ b ∷ c ∷ rest) h =
    let first : x ≡ a = ground arith in
    let second : x ≡ b = ground arith in
    let third : x ≡ c = ground arith in (x, rest, rw (← first, ← second, ← third) refl)

self-eq : (s : ℕ) → (s == s) ≡ true
self-eq s = (==_iff s s).1 refl

follow_of_four : (x : ℕ) (xs : List ℕ) → FourAlike (x ∷ xs) → 3 ≤ follow x xs
follow_of_four x [] (s, rest, e) = cc
follow_of_four x (a ∷ []) (s, rest, e) = cc
follow_of_four x (a ∷ b ∷ []) (s, rest, e) = cc
follow_of_four x (a ∷ b ∷ c ∷ xs) (s, rest, e) =
    let e₁ : x ≡ s = cc in
    let e₂ : a ≡ s = cc in
    let e₃ : b ≡ s = cc in let e₄ : c ≡ s = cc in rw (e₁, e₂, e₃, e₄, self-eq s) (omega arith)

-- A quiet watchdog that has seen these signatures.
record Tracks (calls results : List ℕ) (w : Watch) : Type 0 where
  quiet : w.node.watchdog_tripped ≡ false
  count : w.node.watchdog_tool_calls ≡ length calls
  call_run : Run w.last_call w.same_call calls
  result_run : Run w.last_result w.same_result results
  calm : IsAlarm calls results → ⊥

-- One more signature: there is an alarm and the watchdog trips, or it goes on quietly.
abbrev Steps : List ℕ → List ℕ → Watch → Type 0
Steps calls results w =
    ((w.node.watchdog_tripped ≡ true) × IsAlarm calls results) ⊎ Tracks calls results w

observe_call-Steps :
    (calls results : List ℕ) (signature : ℕ) (w : Watch)
    → Tracks calls results w
    → Steps (signature ∷ calls) results (observe_call signature w)
unfolding observe_call weigh_call watchdog_trip
observe_call-Steps calls results signature w t =
    let same = repeats signature w.last_call w.same_call in
    let run = repeats-Run signature w.last_call w.same_call calls t.call_run in
    let quiet = t.quiet in
    let count = t.count in
    elim (Bool-cases (leb 4 same)) [
      | inl four ↦
          let alike : 3 ≤ follow signature calls = let long = run.1 in ground arith in
          inl (rw (four, quiet) refl, inr (inl (four_of_follow signature calls alike)))
      | inr few ↦ elim (Bool-cases (leb 128 (suc w.node.watchdog_tool_calls))) [
        | inl many ↦ inl (rw (few, many, quiet) refl, inl (ground arith))
        | inr less ↦ inr (record {
          quiet = rw (few, less) quiet;
          count = rw (few, less) (ap suc count);
          call_run = run;
          result_run = t.result_run;
          calm = λ alarm. elim alarm [
            | inl long ↦ absurd (over count less long)
            | inr (inl four) ↦ absurd (again (follow_of_four signature calls four) run.1 few)
            | inr (inr four) ↦ t.calm (inr (inr four))
          ];
        })
      ]
    ]
  where
    over :
        w.node.watchdog_tool_calls ≡ length calls
        → leb 128 (suc w.node.watchdog_tool_calls) ≡ false
        → 128 ≤ suc (length calls)
        → ⊥
    over count less long = ground arith

    again :
        3 ≤ follow signature calls
        → repeats signature w.last_call w.same_call ≡ suc (follow signature calls)
        → leb 4 (repeats signature w.last_call w.same_call) ≡ false
        → ⊥
    again long e few = ground arith

observe_result-Steps :
    (calls results : List ℕ) (signature : ℕ) (w : Watch)
    → Tracks calls results w
    → Steps calls (signature ∷ results) (observe_result signature w)
unfolding observe_result watchdog_trip
observe_result-Steps calls results signature w t =
    let same = repeats signature w.last_result w.same_result in
    let run = repeats-Run signature w.last_result w.same_result results t.result_run in
    let quiet = t.quiet in
    elim (Bool-cases (leb 4 same)) [
      | inl four ↦
          let alike : 3 ≤ follow signature results = let long = run.1 in ground arith in
          inl (rw (four, quiet) refl, inr (inr (four_of_follow signature results alike)))
      | inr few ↦ inr (record {
        quiet = rw few quiet;
        count = rw few t.count;
        call_run = t.call_run;
        result_run = run;
        calm = λ alarm. elim alarm [
          | inl long ↦ t.calm (inl long)
          | inr (inl four) ↦ t.calm (inr (inl four))
          | inr (inr four) ↦ absurd (again (follow_of_four signature results four) run.1 few)
        ];
      })
    ]
  where
    again :
        3 ≤ follow signature results
        → repeats signature w.last_result w.same_result ≡ suc (follow signature results)
        → leb 4 (repeats signature w.last_result w.same_result) ≡ false
        → ⊥
    again long e few = ground arith

observe_event_line-Steps :
    (calls results : List ℕ) (line : Str) (w : Watch)
    → Tracks calls results w
    → Steps
        (push (call_signature line) calls)
        (push (result_signature line) results)
        (observe_event_line line w)
unfolding observe_event_line
observe_event_line-Steps calls results line w t =
    let event = strip_separator line in
    let quiet = t.quiet in
    elim (Bool-cases (is_call_line event)) [
      | inl call ↦
          let seen : (w.node.watchdog_tripped
                || not (is_call_line event) && not (is_result_line event))
              ≡ false =
            ground arith in
          rw (observe_event_line, seen, call)
            (observe_call-Steps calls results (fnv1a64_bytes 0 (stable_part true event)) w t)
      | inr other ↦ elim (Bool-cases (is_result_line event)) [
        | inl result ↦
            let seen : (w.node.watchdog_tripped
                  || not (is_call_line event) && not (is_result_line event))
                ≡ false =
              ground arith in
            rw (observe_event_line, seen, other, result)
              (observe_result-Steps calls results (fnv1a64_bytes 0 (stable_part false event)) w t)
        | inr neither ↦
            let over : (w.node.watchdog_tripped
                  || not (is_call_line event) && not (is_result_line event))
                ≡ true =
              ground arith in
            rw (observe_event_line, over, other, neither) (inr t)
      ]
    ]

-- A watchdog that has tripped ignores the rest.
observe_lines-tripped :
    (lines : List Str) (w : Watch)
    → w.node.watchdog_tripped ≡ true
    → (observe_lines lines w).node.watchdog_tripped ≡ true
unfolding observe_lines observe_event_line
observe_lines-tripped [] w tripped = tripped
observe_lines-tripped (line ∷ lines) w tripped =
    let same : observe_event_line line w ≡ w = rw (observe_event_line, tripped) refl in
    rw (observe_lines, same) (observe_lines-tripped lines w tripped)

-- An alarm that is not there yet comes with one of the lines behind.
later :
    (calls results : List ℕ) (line : Str) (lines : List Str)
    → (IsAlarm calls results → ⊥)
    → (Alarmed (push (call_signature line) calls) (push (result_signature line) results) lines → ⊥)
    → (front back : List Str) → line ∷ lines ≡ front ++ back
    → IsAlarm (newest call_signature front calls) (newest result_signature front results)
    → ⊥
later calls results line lines calm never [] back e alarm = calm alarm
later calls results line lines calm never (x ∷ front) back e alarm =
    let same : x ≡ line = cc in
    let rest : lines ≡ front ++ back = cc in
    never (record { front = front; back = back; whole = rest; alarm = rw same at alarm })

-- What has been observed of the lines, from a watchdog that is quiet.
abbrev Observed : List ℕ → List ℕ → List Str → Watch → Type 0
Observed calls results lines w =
    ((w.node.watchdog_tripped ≡ true) × Alarmed calls results lines)
    ⊎ ((w.node.watchdog_tripped ≡ false)
        × (w.node.watchdog_tool_calls ≡ length (newest call_signature lines calls))
        × (Alarmed calls results lines → ⊥))

observe_lines-Observed :
    (calls results : List ℕ) (lines : List Str) (w : Watch)
    → Tracks calls results w
    → Observed calls results lines (observe_lines lines w)
unfolding observe_lines
observe_lines-Observed calls results [] w t =
    inr (t.quiet, t.count, λ a. none_yet a.front a.back a.whole a.alarm)
  where
    none_yet :
        (front back : List Str)
        → [] ≡ front ++ back
        → IsAlarm (newest call_signature front calls) (newest result_signature front results)
        → ⊥
    none_yet [] back e alarm = t.calm alarm
    none_yet (x ∷ front) back e alarm = cc
observe_lines-Observed calls results (line ∷ lines) w t =
    let w' = observe_event_line line w in
    elim (observe_event_line-Steps calls results line w t) [
      | inl (tripped, alarm) ↦ inl (
        observe_lines-tripped lines w' tripped,
        record { front = line ∷ []; back = lines; whole = refl; alarm = alarm },
      )
      | inr t' ↦
          elim (observe_lines-Observed (push (call_signature line) calls)
            (push (result_signature line) results) lines w' t') [
              | inl (tripped, a) ↦ inl (
                tripped,
                record {
                  front = line ∷ a.front;
                  back = a.back;
                  whole = ap (λ ls. line ∷ ls) a.whole;
                  alarm = a.alarm;
                },
              )
              | inr (quiet, count, never) ↦ inr (
                quiet,
                count,
                λ a. later calls results line lines t.calm never a.front a.back a.whole a.alarm,
              )
            ]
    ]

-- From the beginning of an agent's turn the watchdog has tripped behind some lines exactly if behind one
-- of them there were 128 tool calls, or the last four calls had one signature, or the last four
-- results; and while it has not, the node counts the tool calls of the lines.
pub observe_lines-tripped_iff :
    (lines : List Str) (w : Watch)
    → IsFresh w
    → (((observe_lines lines w).node.watchdog_tripped ≡ true) ↔ Alarmed [] [] lines)
      × ((observe_lines lines w).node.watchdog_tripped ≡ false
          → (observe_lines lines w).node.watchdog_tool_calls
            ≡ length (newest call_signature lines []))
observe_lines-tripped_iff lines w fresh =
    let none_yet : IsAlarm [] [] → ⊥ = λ alarm. elim alarm [
      | inl many ↦ absurd (omega (arith, many))
      | inr (inl (s, rest, e)) ↦ cc
      | inr (inr (s, rest, e)) ↦ cc
    ] in
    let start : Tracks [] [] w = record {
      quiet = fresh.quiet;
      count = fresh.calls;
      call_run = fresh.same_call;
      result_run = fresh.same_result;
      calm = none_yet;
    } in
    elim (observe_lines-Observed [] [] lines w start) [
      | inl (tripped, alarmed) ↦ ((λ h. alarmed, λ a. tripped), λ quiet. cc)
      | inr (quiet, count, never) ↦ ((λ tripped. cc, λ a. absurd (never a)), λ h. count)
    ]
