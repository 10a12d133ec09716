-- ===== src/Api/Usage/Totals.antt =====
-- app/api/usage_router.py: the report beside what has been recorded.
use mcp_agent_gateway.Base.{
  ℕ, ◌+◌, ◌*◌, ltb, decimal, int_of-decimal, length, String, string_eq, char_eq, contains, none,
  some, List, [], ◌∷◌, ◌++◌, ◌≡◌, refl, sym, ap, ◌∙◌, inl, inr, Bool-cases, arith, if◌then◌else◌,
}
use mathlib.Core.List.{map, append_assoc, append-nil}
use mcp_agent_gateway.Base.Dict.{lookup}
use mcp_agent_gateway.Base.Result.{Result, ok, raise}
use mcp_agent_gateway.Redis.{Fields, Redis, IsLawful}
use mcp_agent_gateway.Middleware.Http.{Request}
use mcp_agent_gateway.Shared.Usage.{Xadd, usage_key, usage_fields, record_usage}
use mcp_agent_gateway.Api.Usage.{
  Error, http_exception, Event, Report, admin_scope, scopes_of, require_admin_scope, field, int,
  event_of, read_entry, add_event, read_entries, get_usage,
}

-- the events that are not before the cutoff
abbrev pub recent : ℕ → ℕ → List Event → List Event
recent now hours [] = []
recent now hours (e ∷ es) =
    if ltb (e.ts + hours * 3600 * 1000) now then recent now hours es else e ∷ recent now hours es

abbrev pub sum_in : List Event → ℕ
sum_in [] = 0
sum_in (e ∷ es) = e.in_tokens + sum_in es

abbrev pub sum_out : List Event → ℕ
sum_out [] = 0
sum_out (e ∷ es) = e.out_tokens + sum_out es

abbrev report : String → ℕ → ℕ → ℕ → ℕ → List Event → Report
report user_id hours count total_in total_out events = record {
  user_id = user_id;
  hours = hours;
  count = count;
  total_in_tokens = total_in;
  total_out_tokens = total_out;
  events = events;
}

report_path :
    (user_id : String) (hours : ℕ) {c c' i i' o o' : ℕ} {es es' : List Event}
    → c ≡ c'
    → i ≡ i'
    → o ≡ o'
    → es ≡ es'
    → report user_id hours c i o es ≡ report user_id hours c' i' o' es'
report_path user_id hours p q r t = rw (p, q, r, t) refl

-- XADD on a server that answers
abbrev pub answering_xadd : (R : Redis) → Xadd R.State
answering_xadd R s now key fields = (ok tt, R.xadd s now key fields)

module _ (float : String → Result Error ℕ) (show : ℕ → String)
    (float-show : (t : ℕ) → float (show t) ≡ ok t) where
  abbrev entry : Event → Fields
  entry e = usage_fields (show e.ts) e.tool e.in_tokens e.out_tokens

  read_entry-entry :
      (now hours : ℕ) (e : Event)
      → read_entry float now hours (entry e)
        ≡ ok (if ltb (e.ts + hours * 3600 * 1000) now then none else some e)
  unfolding read_entry event_of int
  read_entry-entry now hours e =
      let a : field (entry e) "ts" ≡ ok (show e.ts) =
        unfold usage_fields field lookup string_eq in refl in
      let b : field (entry e) "in_tokens" ≡ ok (decimal e.in_tokens) =
        unfold usage_fields field lookup string_eq in refl in
      let c : field (entry e) "out_tokens" ≡ ok (decimal e.out_tokens) =
        unfold usage_fields field lookup string_eq in refl in
      let d : field (entry e) "tool" ≡ ok e.tool =
        unfold usage_fields field lookup string_eq in refl in
      elim (Bool-cases (ltb (e.ts + hours * 3600 * 1000) now)) [
        | inl old ↦ ground (arith, float-show e.ts)
        | inr young ↦
            ground (arith, float-show e.ts, int_of-decimal e.in_tokens, int_of-decimal e.out_tokens)
      ]

  abbrev added : Report → List Event → Report
  added r es = record r {
    count = r.count + length es;
    total_in_tokens = r.total_in_tokens + sum_in es;
    total_out_tokens = r.total_out_tokens + sum_out es;
    events = r.events ++ es;
  }

  added_none : (r : Report) → r ≡ added r []
  added_none r =
      report_path r.user_id r.hours (omega arith) (omega arith) (omega arith)
        (sym (append-nil r.events))

  added_one :
      (r : Report) (e : Event) (es : List Event)
      → added (add_event float r (some e)) es ≡ added r (e ∷ es)
  unfolding add_event
  added_one r e es =
      report_path r.user_id r.hours (omega arith) (omega arith) (omega arith)
        (append_assoc r.events (e ∷ []) es)

  read_entries-entries :
      (now hours : ℕ) (r : Report) (es : List Event)
      → read_entries float now hours r (map entry es) ≡ ok (added r (recent now hours es))
  unfolding read_entries add_event
  read_entries-entries now hours r [] = ap ok (added_none r)
  read_entries-entries now hours r (e ∷ es) =
      elim (Bool-cases (ltb (e.ts + hours * 3600 * 1000) now)) [
        | inl old ↦ rw (read_entry-entry now hours e, old) (read_entries-entries now hours r es)
        | inr young ↦
            rw (read_entry-entry now hours e, young)
              (read_entries-entries now hours (add_event float r (some e)) es
                ∙ ap ok (added_one r e (recent now hours es)))
      ]

  module _ (R : Redis) (L : IsLawful R) where
    -- the state after the calls of a user's tools, each recorded at its instant
    abbrev pub record_all : String → R.State → List Event → R.State
    record_all user_id s [] = s
    record_all user_id s (e ∷ es) =
        record_all user_id
          (record_usage (answering_xadd R) s e.ts (show e.ts) user_id e.tool e.in_tokens
            e.out_tokens).1
          es

    xrange-record_all :
        (user_id : String) (s : R.State) (fs : List Fields) (es : List Event)
        → ((u : ℕ) → R.xrange s u (usage_key user_id) ≡ fs)
        → (u : ℕ) → R.xrange (record_all user_id s es) u (usage_key user_id) ≡ fs ++ map entry es
    xrange-record_all user_id s fs [] h u = h u ∙ sym (append-nil fs)
    xrange-record_all user_id s fs (e ∷ es) h u =
        xrange-record_all user_id
          (record_usage (answering_xadd R) s e.ts (show e.ts) user_id e.tool e.in_tokens
            e.out_tokens).1
          (fs ++ (entry e ∷ [])) es
          (unfold record_usage in
            (λ v.
              L.xrange-xadd_later s e.ts v (usage_key user_id) (entry e) (h v ∙ sym (h e.ts))
              ∙ ap (λ x. x ++ (entry e ∷ [])) (h e.ts)))
          u
        ∙ append_assoc fs (entry e ∷ []) (map entry es)

    -- On a lawful server that answers, and with a `float` that reads the times as they were written, an
    -- administrator who asks for the use of the last hours gets the calls that were recorded for
    -- the user and are not older, in their order, with their number and the sums of their tokens,
    -- when nothing was recorded for the user before; a caller without the scope gets the status
    -- 403.
    pub get_usage-record_all :
        (user_id : String) (s : R.State) (es : List Event) (now hours : ℕ) (request : Request)
        → ((u : ℕ) → R.xrange s u (usage_key user_id) ≡ [])
        → get_usage float R (record_all user_id s es) now request user_id hours ≡ (
            if contains (scopes_of request.user) admin_scope
            then ok (record {
              user_id = user_id;
              hours = hours;
              count = length (recent now hours es);
              total_in_tokens = sum_in (recent now hours es);
              total_out_tokens = sum_out (recent now hours es);
              events = recent now hours es;
            })
            else raise (http_exception 403))
    unfolding get_usage require_admin_scope
    get_usage-record_all user_id s es now hours request h =
        elim (Bool-cases (contains (scopes_of request.user) admin_scope)) [
          | inl admin ↦
              rw (admin, xrange-record_all user_id s [] es h now)
                (read_entries-entries now hours (report user_id hours 0 0 0 []) es
                  ∙ ap ok
                      (report_path user_id hours (omega arith) (omega arith) (omega arith) refl))
          | inr other ↦ rw other refl
        ]
