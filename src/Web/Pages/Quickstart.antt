-- ===== src/Web/Pages/Quickstart.antt =====
-- apps/web/src/features/estimates/QuickstartDialog.tsx, while it is open.
use remodelator.Base.{
  String, Bool, true, false, ◌||◌, Option, none, some, List, [], ◌∷◌, ◌++◌, if◌then◌else◌,
}
use remodelator.Base.Json.{Json}
use remodelator.Base.Text.{is_empty}
use remodelator.Web.Api.Calls.{Estimates, quickstart_estimate}
use remodelator.Web.Builtins.{Builtins, some_number, object_of}
use remodelator.Web.Query.{
  Effect, Outcome, succeeded, failed, failed_otherwise, invalidate, estimate_key, estimates_key,
  toast_success, toast_error, close,
}

pub record Quickstart : Type 0 where
  pub selected_room : String
  pub max_items : String
  pub running : Bool
  pub calls : List Estimates
  pub effects : List Effect

unfoldable pub quickstart_opened : Quickstart
quickstart_opened = record {
  selected_room = "";
  max_items = "10";
  running = false;
  calls = [];
  effects = [];
}

-- the two fields
unfoldable pub select_room : String → Quickstart → Quickstart
select_room room s = record s { selected_room = room }

unfoldable pub set_max_items : String → Quickstart → Quickstart
set_max_items value s = record s { max_items = value }

module _ {N : Type 0} (num : Builtins N) (parse_int : String → N) where
  -- `parseInt(maxItems) || undefined`
  unfoldable pub sent_max_items : String → Option Json
  sent_max_items text =
      let n = parse_int text in if num.is_nan n || num.is_zero n then none else some_number num n

  -- the button, which is disabled without a room and while the quick start runs
  unfoldable pub press_quickstart : String → Quickstart → Quickstart
  unfolding sent_max_items
  press_quickstart estimate_id s = if is_empty s.selected_room || s.running then s else record s {
    running = true;
    calls =
        s.calls
        ++ quickstart_estimate estimate_id (
            object_of (
              ("catalog_node_name", some (Json.text s.selected_room))
              ∷ ("max_items", sent_max_items s.max_items)
              ∷ []))
          ∷ [];
  }

-- `onSuccess` and `onError`
unfoldable pub quickstarted : String → Outcome → Quickstart → Quickstart
quickstarted estimate_id (succeeded reply) s = record s {
  running = false;
  effects =
      s.effects
      ++ invalidate (estimate_key estimate_id)
        ∷ invalidate estimates_key
        ∷ toast_success "Starter items added!"
        ∷ close
        ∷ [];
}
quickstarted estimate_id (failed message) s = record s {
  running = false;
  effects = s.effects ++ toast_error message ∷ [];
}
quickstarted estimate_id failed_otherwise s = record s {
  running = false;
  effects = s.effects ++ toast_error "Quickstart failed" ∷ [];
}
