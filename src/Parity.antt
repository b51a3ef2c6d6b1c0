-- ===== src/Parity.antt =====
-- scripts/check-detector-parity.py: two detectors of one rule, asked the same question about the same
-- repository. What the detectors print is a parameter, as it is read.
pub mod Artifact
pub mod Run
pub mod Comments
pub mod Tallies
pub mod Agreement
use ci_workflows.Base.{
  ℕ, zero, suc, ◌+◌, Bool, true, false, not, ◌&&◌, ◌||◌, Option, none, some, List, [], ◌∷◌, ◌++◌,
  ◌==◌, if◌then◌else◌, any,
}
use ci_workflows.Base.Text.{Str, codes, elem, str_eq}
use ci_workflows.ModulePins.{Dict, lookup, insert}

pub data Verdict : Type 0 where
  flagged clean indeterminate : Verdict

-- A pair of implementations: the controls, with the name of each one's check in the CLI.
pub record Family : Type 0 where
  pub name : Str
  pub pairs : Dict Str
  pub strict_counts : Bool

abbrev pub rfc0038 : Family
rfc0038 = record {
  name = codes "rfc0038";
  pairs =
      (codes "API-0008", codes "conditional_requests")
      ∷ (codes "API-0009", codes "cache_key_declared")
      ∷ (codes "API-0010", codes "standard_ratelimit_fields")
      ∷ (codes "API-0011", codes "patch_media_type")
      ∷ (codes "API-0012", codes "idempotency_declared")
      ∷ (codes "API-0013", codes "protocol_version_pinned")
      ∷ (codes "API-0014", codes "trace_context_propagated")
      ∷ (codes "API-0015", codes "security_response_headers")
      ∷ [];
  strict_counts = false;
}

abbrev pub gateway : Family
gateway = record {
  name = codes "gateway";
  pairs =
      (codes "GW-0001", codes "gateway_shared_baseline")
      ∷ (codes "GW-0002", codes "gateway_no_baseline_overrides")
      ∷ (codes "GW-0003", codes "gateway_baseline_module_floor")
      ∷ (codes "GW-0004", codes "gateway_protocol_ingress")
      ∷ (codes "GW-0005", codes "gateway_connection_bounds")
      ∷ (codes "GW-0006", codes "gateway_grpc_auth_decisions")
      ∷ (codes "GW-0007", codes "grpc_server_auth_interceptors")
      ∷ (codes "GW-0008", codes "gateway_backend_tls")
      ∷ [];
  strict_counts = true;
}

abbrev pub families : List Family
families = rfc0038 ∷ gateway ∷ []

-- A verdict, or none for a control that does not apply, and a count.
pub record Cell : Type 0 where
  pub verdict : Option Verdict
  pub count : ℕ

abbrev pub no_cell : Cell
no_cell = record { verdict = none; count = 0 }

-- A result that the CI detector prints.
pub record Result : Type 0 where
  pub control : Str
  pub result : Str
  pub count : ℕ

pub data CiOutput : Type 0 where
  no_json : Str → CiOutput
  results : List Result → CiOutput

pub record Finding : Type 0 where
  pub check : Str
  pub status : Str

pub data CliOutput : Type 0 where
  cannot_run no_json : Str → CliOutput
  -- the findings of each report
  reports : List (List Finding) → CliOutput

-- A report, or the text under `__error__`.
pub data Answer : Type 0 where
  error : Str → Answer
  cells : Dict Cell → Answer

unfoldable pub cell_of : Result → Cell
unfolding elem
cell_of c =
    if elem c.result (codes "skip" ∷ codes "skipped" ∷ codes "n/a" ∷ [])
    then no_cell
    else if str_eq c.result (codes "indeterminate")
    then record { verdict = some indeterminate; count = c.count }
    else record { verdict = some (if c.count == 0 then clean else flagged); count = c.count }

abbrev pub has_key {ℓ} : {A : Type ℓ} → Option A → Bool
has_key none = false
has_key (some a) = true

-- The loop over the results.
unfoldable pub ci_cells : Family → List Result → Dict Cell → Dict Cell
unfolding cell_of lookup insert
ci_cells fam [] report = report
ci_cells fam (c ∷ cs) report =
    ci_cells fam cs
      (if has_key (lookup c.control fam.pairs) then insert c.control (cell_of c) report else report)

unfoldable pub ci_report : Family → CiOutput → Answer
unfolding ci_cells
ci_report fam (no_json text) = error text
ci_report fam (results cs) = cells (ci_cells fam cs [])

-- What the loops over the findings collect.
pub record Counted : Type 0 where
  pub counts : Dict ℕ
  pub indeterminate_checks : List Str

abbrev pub or_zero : Option ℕ → ℕ
or_zero none = 0
or_zero (some n) = n

unfoldable pub count_findings : List Finding → Counted → Counted
unfolding lookup insert str_eq
count_findings [] t = t
count_findings (f ∷ fs) t = count_findings fs (
    if str_eq f.status (codes "indeterminate")
    then record t { indeterminate_checks = f.check ∷ t.indeterminate_checks }
    else record t { counts = insert f.check (suc (or_zero (lookup f.check t.counts))) t.counts })

unfoldable pub count_reports : List (List Finding) → Counted → Counted
unfolding count_findings
count_reports [] t = t
count_reports (fs ∷ rs) t = count_reports rs (count_findings fs t)

unfoldable pub cli_cell : Counted → Str → Cell
unfolding lookup elem
cli_cell t check =
    let n = or_zero (lookup check t.counts) in
    if not (n == 0)
    then record { verdict = some flagged; count = n }
    else if elem check t.indeterminate_checks
    then record { verdict = some indeterminate; count = 0 }
    else record { verdict = some clean; count = 0 }

unfoldable pub cli_cells : Counted → Dict Str → Dict Cell
unfolding cli_cell
cli_cells t [] = []
cli_cells t ((cid, check) ∷ pairs) = (cid, cli_cell t check) ∷ cli_cells t pairs

unfoldable pub cli_report : Family → CliOutput → Answer
unfolding cli_cells count_reports
cli_report fam (cannot_run text) = error text
cli_report fam (no_json text) = error text
cli_report fam (reports rs) =
    cells
      (cli_cells (count_reports rs (record { counts = []; indeterminate_checks = [] })) fam.pairs)

abbrev pub cell_or_none : Option Cell → Cell
cell_or_none none = no_cell
cell_or_none (some c) = c

abbrev pub cell_at : Str → Dict Cell → Cell
cell_at cid report = cell_or_none (lookup cid report)
