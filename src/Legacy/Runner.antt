-- ===== src/Legacy/Runner.antt =====
-- archive/apps/web/src_legacy/lib/useActionRunner.ts: the log and the busy flag round every command.
use Prim.Native.String.{◌++◌ as text_append}
use remodelator.Base.{suc, String, true, false, [], ◌∷◌, take}
use remodelator.Legacy.Monad.{World, Outcome, ok, raised, waiting, off_contract, M, ⊤}

-- `${stamp} ${message}`
abbrev pub stamped : World → String → String
stamped w message = text_append (w.platform.clock w.ticks) (text_append " " message)

unfoldable pub push_log : String → M ⊤
push_log message w = (
  ok tt,
  record w {
    ticks = suc w.ticks;
    runner = record (w.runner) { log_lines = take 100 (stamped w message ∷ w.runner.log_lines) };
  },
)

unfoldable pub clear_logs : M ⊤
clear_logs w = (ok tt, record w { runner = record (w.runner) { log_lines = [] } })

-- the assignments before the action is awaited
abbrev pub started : String → World → World
started label w = record w {
  runner = record (w.runner) {
    busy = true;
    action_status_is_error = false;
    action_status = text_append label ": running...";
  };
}

-- the rest of the `try`
completed : String → World → World
unfolding push_log
completed label w =
    let (_, w') = push_log (text_append label ": OK") w in
    record w' {
      runner = record (w'.runner) {
        action_status = text_append label ": completed.";
        busy = false;
      };
    }

-- the `catch`
caught : String → String → World → World
unfolding push_log
caught label message w =
    let (_, w') = push_log (text_append label (text_append ": ERROR: " message)) w in
    record w' {
      runner = record (w'.runner) {
        action_status_is_error = true;
        action_status = text_append label (text_append ": " message);
        busy = false;
      };
    }

unfoldable pub finish : String → Outcome ⊤ × World → Outcome ⊤ × World
unfolding completed caught
finish label (ok _, w) = (ok tt, completed label w)
finish label (raised message, w) = (ok tt, caught label message w)
finish label (waiting, w) = (waiting, w)
finish label (off_contract, w) = (off_contract, w)

unfoldable pub run : String → M ⊤ → M ⊤
unfolding finish
run label action w = finish label (action (started label w))
