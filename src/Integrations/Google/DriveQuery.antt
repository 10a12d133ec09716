-- ===== src/Integrations/Google/DriveQuery.antt =====
-- app/integrations/google/drive_query.py: the text of a Drive `q` parameter.
pub mod Literal
pub mod Tokens
use Prim.Native.String.{[], ◌∷◌}
use mcp_agent_gateway.Base.{
  ℕ, zero, suc, ◌/◌, ◌%◌, String, ◌<>◌, truthy, replace_char, join, Bool, Option, none, some, List,
  if◌then◌else◌, ◌++◌,
}

-- `literal.replace("\\", "\\\\").replace("'", "\\'")`
unfoldable pub escape : String → String
escape literal = replace_char "'" "\\'" (replace_char "\\" "\\\\" literal)

-- `datetime.date`, of which `date.isoformat` reads the three numbers.
pub record Date : Type 0 where
  pub year : ℕ
  pub month : ℕ
  pub day : ℕ

-- the character of a decimal digit
unfoldable pub digit : ℕ → String
digit zero = "0"
digit (suc zero) = "1"
digit (suc (suc zero)) = "2"
digit (suc (suc (suc zero))) = "3"
digit (suc (suc (suc (suc zero)))) = "4"
digit (suc (suc (suc (suc (suc zero))))) = "5"
digit (suc (suc (suc (suc (suc (suc zero)))))) = "6"
digit (suc (suc (suc (suc (suc (suc (suc zero))))))) = "7"
digit (suc (suc (suc (suc (suc (suc (suc (suc zero)))))))) = "8"
digit _ = "9"

-- `YYYY-MM-DD`; a `date` has a year below 10000, and months and days below 100.
unfoldable pub isoformat : Date → String
isoformat d =
    digit (d.year / 1000)
    <> digit (d.year / 100 % 10)
    <> digit (d.year / 10 % 10)
    <> digit (d.year % 10)
    <> "-"
    <> digit (d.month / 10)
    <> digit (d.month % 10)
    <> "-"
    <> digit (d.day / 10)
    <> digit (d.day % 10)

pub record Filters : Type 0 where
  pub name_contains : Option String
  pub full_text : Option String
  pub mime_type : Option String
  pub in_folder : Option String
  pub modified_after : Option Date
  pub include_trashed : Bool

-- `if value: clauses.append(...)`, for a text that may be missing or empty
unfoldable pub clause : Option String → (String → String) → List String
clause none f = List.[]
clause (some v) f = if truthy v then List.◌∷◌ (f v) List.[] else List.[]

unfoldable pub date_clause : Option Date → List String
date_clause none = List.[]
date_clause (some d) = List.◌∷◌ ("modifiedTime > '" <> isoformat d <> "T00:00:00'") List.[]

unfoldable pub trashed_clause : Bool → List String
trashed_clause include_trashed =
    if include_trashed then List.[] else List.◌∷◌ "trashed = false" List.[]

unfoldable pub clauses : Filters → List String
clauses f =
    clause f.name_contains (λ v. "name contains '" <> escape v <> "'")
    ++ (clause f.full_text (λ v. "fullText contains '" <> escape v <> "'")
        ++ (clause f.mime_type (λ v. "mimeType = '" <> escape v <> "'")
            ++ (clause f.in_folder (λ v. "'" <> escape v <> "' in parents")
                ++ (date_clause f.modified_after ++ trashed_clause f.include_trashed))))

unfoldable pub build_drive_query : Filters → String
build_drive_query f = join " and " (clauses f)
