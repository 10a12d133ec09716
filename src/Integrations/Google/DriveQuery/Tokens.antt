-- ===== src/Integrations/Google/DriveQuery/Tokens.antt =====
-- A whole query as Drive reads it: single characters outside quotes, and literals.
use Prim.Native.String.{[], ◌∷◌}
use mcp_agent_gateway.Base.{
  ℕ, zero, suc, ◌/◌, ◌%◌, String, Char, ◌<>◌, ◌==◌, char_eq, Bool, true, false, not, ◌&&◌, Option,
  none, some, ◌≡◌, refl, ◌≢◌, arith, if◌then◌else◌, List, ◌++◌, join, truthy, subst,
  append_text_assoc,
}
use mcp_agent_gateway.Integrations.Google.DriveQuery.{
  escape, Filters, Date, isoformat, digit, clause, date_clause, trashed_clause, clauses,
  build_drive_query,
}
use mcp_agent_gateway.Integrations.Google.DriveQuery.Literal.{
  read_literal, read_literal-escape, read_literal-append, is_clean, escape_of_clean,
  is_clean-append,
}

pub data Token : Type 0 where
  chr : Char → Token
  lit : String → Token

-- `Reads q ts`: Drive reads the text `q` as the tokens `ts`.
pub data Reads : String → List Token → Type 0 where
  done : Reads [] List.[]
  plain :
      {c : Char} {s : String} {ts : List Token}
      → c ≢ "'"
      → Reads s ts
      → Reads (c ∷ s) (List.◌∷◌ (chr c) ts)
  quoted :
      {c : Char} {s v rest : String} {ts : List Token}
      → c ≡ "'"
      → read_literal false s ≡ some (v, rest)
      → Reads rest ts
      → Reads (c ∷ s) (List.◌∷◌ (lit v) ts)

-- A text is read in one way at most.
pub Reads-unique : {q : String} {ts us : List Token} → Reads q ts → Reads q us → ts ≡ us
Reads-unique done done = refl
Reads-unique (plain n r) (plain m r') = ground (arith, Reads-unique r r')
Reads-unique (plain n r) (quoted e h r') = absurd (n e)
Reads-unique (quoted e h r) (plain n r') = absurd (n e)
Reads-unique (quoted {rest = x} {ts = ts} e h r) (quoted {rest = y} {ts = us} e' h' r') =
    let same : y ≡ x = cc in
    let tail : ts ≡ us = Reads-unique r (subst (λ q. Reads q us) same r') in ground arith

Reads-append :
    {s t : String} {ts us : List Token} → Reads s ts → Reads t us → Reads (s <> t) (ts ++ us)
Reads-append done r = r
Reads-append (plain n q) r = plain n (Reads-append q r)
Reads-append {t = t} (quoted {s = s} e h q) r =
    quoted e (read_literal-append false s t h) (Reads-append q r)

-- the characters of a text outside quotes
abbrev pub chars : String → List Token
chars [] = List.[]
chars (c ∷ s) = List.◌∷◌ (chr c) (chars s)

abbrev no_quote : String → Bool
no_quote [] = true
no_quote (c ∷ s) = not (c == "'") && no_quote s

Reads-chars : (s : String) → no_quote s ≡ true → Reads s (chars s)
Reads-chars [] h = done
Reads-chars (c ∷ s) h = plain (ground arith) (Reads-chars s (ground arith))

Reads-quote : (v : String) → Reads ("'" <> escape v <> "'") (List.◌∷◌ (lit v) List.[])
Reads-quote v = quoted refl (read_literal-escape v "") done

Reads-quote_clean :
    (v : String) → is_clean v ≡ true → Reads ("'" <> (v <> "'")) (List.◌∷◌ (lit v) List.[])
Reads-quote_clean v h = rw (escape_of_clean v h) at (Reads-quote v)

digit-is_clean : (n : ℕ) → is_clean (digit n) ≡ true
unfolding digit char_eq
digit-is_clean zero = refl
digit-is_clean (suc zero) = refl
digit-is_clean (suc (suc zero)) = refl
digit-is_clean (suc (suc (suc zero))) = refl
digit-is_clean (suc (suc (suc (suc zero)))) = refl
digit-is_clean (suc (suc (suc (suc (suc zero))))) = refl
digit-is_clean (suc (suc (suc (suc (suc (suc zero)))))) = refl
digit-is_clean (suc (suc (suc (suc (suc (suc (suc zero))))))) = refl
digit-is_clean (suc (suc (suc (suc (suc (suc (suc (suc zero)))))))) = refl
digit-is_clean _ = refl

join_clean : (n : ℕ) (s : String) → is_clean s ≡ true → is_clean (digit n <> s) ≡ true
join_clean n s h = is_clean-append (digit n) s (digit-is_clean n) h

isoformat-is_clean : (d : Date) → is_clean (isoformat d) ≡ true
unfolding isoformat
isoformat-is_clean d = join_clean (d.year / 1000) _ (
    join_clean (d.year / 100 % 10) _ (
      join_clean (d.year / 10 % 10) _ (
        join_clean (d.year % 10) _ (
          is_clean-append "-" _ (unfold char_eq in refl) (
            join_clean (d.month / 10) _ (
              join_clean (d.month % 10) _ (
                is_clean-append "-" _ (unfold char_eq in refl)
                  (join_clean (d.day / 10) _ (digit-is_clean (d.day % 10))))))))))

-- What the query says: the tokens of each clause, where a filter's text is one literal.
abbrev pub clause_tokens : Option String → (String → List Token) → List (List Token)
clause_tokens none f = List.[]
clause_tokens (some v) f = if truthy v then List.◌∷◌ (f v) List.[] else List.[]

abbrev pub date_tokens : Option Date → List (List Token)
date_tokens none = List.[]
date_tokens (some d) =
    List.◌∷◌ (chars "modifiedTime > " ++ List.◌∷◌ (lit (isoformat d <> "T00:00:00")) List.[])
      List.[]

abbrev pub trashed_tokens : Bool → List (List Token)
trashed_tokens include_trashed =
    if include_trashed then List.[] else List.◌∷◌ (chars "trashed = false") List.[]

abbrev pub one : Token → List Token
one t = List.◌∷◌ t List.[]

abbrev pub filter_tokens : Filters → List (List Token)
filter_tokens f =
    clause_tokens f.name_contains (λ v. chars "name contains " ++ one (lit v))
    ++ (clause_tokens f.full_text (λ v. chars "fullText contains " ++ one (lit v))
        ++ (clause_tokens f.mime_type (λ v. chars "mimeType = " ++ one (lit v))
            ++ (clause_tokens f.in_folder (λ v. one (lit v) ++ chars " in parents")
                ++ (date_tokens f.modified_after ++ trashed_tokens f.include_trashed))))

abbrev pub join_tokens : List (List Token) → List Token
join_tokens List.[] = List.[]
join_tokens (List.◌∷◌ t List.[]) = t
join_tokens (List.◌∷◌ t (List.◌∷◌ u rest)) = t ++ (chars " and " ++ join_tokens (List.◌∷◌ u rest))

abbrev ReadsAll : List String → List (List Token) → Type 0
ReadsAll List.[] List.[] = Unit
ReadsAll (List.◌∷◌ s ss) (List.◌∷◌ t ts) = Reads s t × ReadsAll ss ts
ReadsAll _ _ = ⊥

ReadsAll-append :
    (ss us : List String) (ts vs : List (List Token))
    → ReadsAll ss ts
    → ReadsAll us vs
    → ReadsAll (ss ++ us) (ts ++ vs)
ReadsAll-append List.[] us List.[] vs h k = k
ReadsAll-append List.[] us (List.◌∷◌ t ts) vs h k = absurd h
ReadsAll-append (List.◌∷◌ s ss) us List.[] vs h k = absurd h
ReadsAll-append (List.◌∷◌ s ss) us (List.◌∷◌ t ts) vs h k = (h.0, ReadsAll-append ss us ts vs h.1 k)

ReadsAll-clause :
    (o : Option String) (f : String → String) (g : String → List Token)
    → ((v : String) → Reads (f v) (g v))
    → ReadsAll (clause o f) (clause_tokens o g)
unfolding clause
ReadsAll-clause none f g h = tt
ReadsAll-clause (some []) f g h = tt
ReadsAll-clause (some (c ∷ s)) f g h = (h (c ∷ s), tt)

ReadsAll-date : (o : Option Date) → ReadsAll (date_clause o) (date_tokens o)
unfolding date_clause
ReadsAll-date none = tt
ReadsAll-date (some d) =
    let clean : is_clean (isoformat d <> "T00:00:00") ≡ true =
      is_clean-append (isoformat d) "T00:00:00" (isoformat-is_clean d) (unfold char_eq in refl) in
    (
      Reads-append (Reads-chars "modifiedTime > " (unfold char_eq in refl))
          (rw append_text_assoc at (Reads-quote_clean (isoformat d <> "T00:00:00") clean)),
      tt,
    )

ReadsAll-trashed : (b : Bool) → ReadsAll (trashed_clause b) (trashed_tokens b)
unfolding trashed_clause
ReadsAll-trashed true = tt
ReadsAll-trashed false = (Reads-chars "trashed = false" (unfold char_eq in refl), tt)

Reads-join :
    (ss : List String) (ts : List (List Token))
    → ReadsAll ss ts
    → Reads (join " and " ss) (join_tokens ts)
unfolding join
Reads-join List.[] List.[] h = done
Reads-join List.[] (List.◌∷◌ t ts) h = absurd h
Reads-join (List.◌∷◌ s ss) List.[] h = absurd h
Reads-join (List.◌∷◌ s List.[]) (List.◌∷◌ t List.[]) h = h.0
Reads-join (List.◌∷◌ s List.[]) (List.◌∷◌ t (List.◌∷◌ u ts)) h = absurd h.1
Reads-join (List.◌∷◌ s (List.◌∷◌ s' ss)) (List.◌∷◌ t List.[]) h = absurd h.1
Reads-join (List.◌∷◌ s (List.◌∷◌ s' ss)) (List.◌∷◌ t (List.◌∷◌ u ts)) h = Reads-append h.0 (
    Reads-append (Reads-chars " and " (unfold char_eq in refl))
      (Reads-join (List.◌∷◌ s' ss) (List.◌∷◌ u ts) h.1))

quoted_behind :
    (p v : String)
    → no_quote p ≡ true
    → Reads (p <> ("'" <> escape v <> "'")) (chars p ++ one (lit v))
quoted_behind p v h = Reads-append (Reads-chars p h) (Reads-quote v)

in_parents :
    (v : String) → Reads ("'" <> escape v <> "' in parents") (one (lit v) ++ chars " in parents")
in_parents v =
    rw (append_text_assoc (escape v) "'" " in parents") at
      (Reads-append (Reads-quote v) (Reads-chars " in parents" (unfold char_eq in refl)))

filters_read : (f : Filters) → Reads (build_drive_query f) (join_tokens (filter_tokens f))
unfolding build_drive_query clauses
filters_read f = Reads-join _ _ (
    ReadsAll-append _ _ _ _
      (ReadsAll-clause f.name_contains _ _
        λ v. quoted_behind "name contains " v (unfold char_eq in refl))
      (ReadsAll-append _ _ _ _
        (ReadsAll-clause f.full_text _ _
          λ v. quoted_behind "fullText contains " v (unfold char_eq in refl))
        (ReadsAll-append _ _ _ _
          (ReadsAll-clause f.mime_type _ _
            λ v. quoted_behind "mimeType = " v (unfold char_eq in refl))
          (ReadsAll-append _ _ _ _ (ReadsAll-clause f.in_folder _ _ in_parents) (
            ReadsAll-append _ _ _ _ (ReadsAll-date f.modified_after)
              (ReadsAll-trashed f.include_trashed))))))

-- Whatever the filters hold, Drive reads the query that is built as the clauses of the filters that
-- are given, and in no other way: each filter's text is one literal, and nothing of it is syntax.
pub build_drive_query-Reads :
    (f : Filters)
    → Reads (build_drive_query f) (join_tokens (filter_tokens f))
      × ((ts : List Token) → Reads (build_drive_query f) ts → ts ≡ join_tokens (filter_tokens f))
build_drive_query-Reads f = (filters_read f, λ ts r. Reads-unique r (filters_read f))
