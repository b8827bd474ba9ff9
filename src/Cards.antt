-- ===== src/Cards.antt =====
-- Cards of web/src/components/usage with logic of their own: the rows of CredentialStatsCard.tsx here,
-- and below the editor of ChartLineSelector.tsx, the tooltip and the numbers of ServiceHealthCard.tsx, and
-- the tables of ModelStatsCard.tsx and ApiDetailsCard.tsx. A count is a
-- number without NaN, and a rate is kept as its two numbers.
pub mod LineEditor
pub mod Tooltip
pub mod HealthGrid
pub mod Tables
pub mod Laws
pub mod Tests
use daili_usage_keeper_north.Base.{
  ℕ, ◌+◌, String, Bool, Option, none, some, List, map, filter, take, sort, leb, ltb, ◌==◌,
  if◌then◌else◌, trim, text_or, decimal,
}

-- The fields of `UsageIdentity` that the rows read.
pub record UsageIdentity : Type 0 where
  pub id : ℕ
  pub name : String
  pub auth_type_name : String
  pub identity : String
  pub type_name : String
  pub total_requests : ℕ
  pub success_count : ℕ
  pub failure_count : ℕ

-- `none` is a rate of 100 over no request.
pub record CredentialRow : Type 0 where
  pub key : String
  pub display_name : String
  pub type_name : String
  pub success : ℕ
  pub failure : ℕ
  pub total : ℕ
  pub success_rate : Option (ℕ × ℕ)

-- `Number(total_requests) || success + failure`
abbrev pub total_requests_of : UsageIdentity → ℕ
total_requests_of c =
    if c.total_requests == 0 then c.success_count + c.failure_count else c.total_requests

abbrev pub name_of_credential : UsageIdentity → String
name_of_credential c = text_or (trim (text_or c.name c.identity)) "-"

unfoldable pub credential_row : UsageIdentity → CredentialRow
unfolding trim decimal
credential_row c = record {
  key = text_or (trim (if c.id == 0 then c.identity else decimal c.id)) (name_of_credential c);
  display_name = name_of_credential c;
  type_name = trim (text_or c.type_name c.auth_type_name);
  success = c.success_count;
  failure = c.failure_count;
  total = total_requests_of c;
  success_rate =
      if ltb 0 (total_requests_of c) then some (c.success_count, total_requests_of c) else none;
}

-- `b.total - a.total <= 0`
abbrev pub no_fewer : CredentialRow → CredentialRow → Bool
no_fewer a b = leb b.total a.total

unfoldable pub build_credential_rows : List UsageIdentity → List CredentialRow
unfolding credential_row sort
build_credential_rows credentials = sort no_fewer (map credential_row credentials)

unfoldable pub get_top_credential_rows : ℕ → List CredentialRow → List CredentialRow
get_top_credential_rows limit rows = take limit (filter (λ r. ltb 0 r.total) rows)
