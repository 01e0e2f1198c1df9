-- ===== src/Analyzer/TaskEffects.antt =====
-- pkg/analyzer: what the handlers leave as it is of a chain analyzer.
use mathlib.Core.List.{append-nil, append_assoc}
use eth_cl_state_analyzer.Common.{ℕ, ◌≡◌, refl, sym, ◌∙◌, ap, true, List, [], ◌∷◌, ◌++◌}
use eth_cl_state_analyzer.Analyzer.Calls.{DbCall}
use eth_cl_state_analyzer.Analyzer.Chain.{ChainAnalyzer, DbMetrics, DownloadMode}
use eth_cl_state_analyzer.Analyzer.Frame.{IsFrame}

-- What no handler changes: what was sent to the download routine, and the settings.
pub record Settings : Type 0 where
  pub download_tasks : List ℕ
  pub init_slot : ℕ
  pub final_slot : ℕ
  pub download_mode : DownloadMode
  pub metrics : DbMetrics
  pub beacon_contract_address : ℕ

abbrev pub settings : ChainAnalyzer → Settings
settings s = record {
  download_tasks = s.download_tasks;
  init_slot = s.init_slot;
  final_slot = s.final_slot;
  download_mode = s.download_mode;
  metrics = s.metrics;
  beacon_contract_address = s.beacon_contract_address;
}

-- From one state to another the database is only called again, the settings stay, and so does a
-- stop flag that is set.
pub record Follows (s t : ChainAnalyzer) : Type 0 where
  pub calls : (cs : List DbCall) × (t.db_calls ≡ s.db_calls ++ cs)
  pub kept : settings t ≡ settings s
  pub stopped : s.stop ≡ true → t.stop ≡ true

pub Follows-refl : (s : ChainAnalyzer) → Follows s s
Follows-refl s = record { calls = ([], sym (append-nil s.db_calls)); kept = refl; stopped = λ h. h }

pub Follows-IsFrame : (s : ChainAnalyzer) → IsFrame (Follows s)
Follows-IsFrame s = record {
  writes = record {
    call = λ c t f.
        let (cs, e) = f.calls in
        record {
          calls = (
            cs ++ c ∷ [],
            ap (λ (l : List DbCall). l ++ c ∷ []) e ∙ append_assoc s.db_calls cs _,
          );
          kept = f.kept;
          stopped = f.stopped;
        };
    cache = λ c t f. record { calls = f.calls; kept = f.kept; stopped = f.stopped };
    stopped = λ t f. record { calls = f.calls; kept = f.kept; stopped = λ h. refl };
    windows = λ a t f. record { calls = f.calls; kept = f.kept; stopped = f.stopped };
  };
  book = λ b t f. record { calls = f.calls; kept = f.kept; stopped = f.stopped };
}
