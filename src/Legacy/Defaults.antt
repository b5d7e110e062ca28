-- ===== src/Legacy/Defaults.antt =====
-- archive/apps/web/src_legacy/lib/defaults.ts
use remodelator.Base.{ℕ, String, List, [], ◌∷◌}
use remodelator.Legacy.Types.{AdminFilters}

abbrev pub default_admin_key : String
default_admin_key = "local-admin-key"

abbrev pub api_limit_min : ℕ
api_limit_min = 1

abbrev pub default_admin_filters : AdminFilters
default_admin_filters = record {
  limit = "200";
  user_search = "";
  user_id = "";
  activity_action = "";
  activity_entity_type = "";
  billing_event_type = "";
  audit_prune_retention_days = "365";
}

abbrev pub default_quickstart_room : String
default_quickstart_room = "Bathroom"

abbrev pub default_group_name : String
default_group_name = "General"

abbrev pub default_profile_item_markup_pct : String
default_profile_item_markup_pct = "10.00"

abbrev pub default_profile_role : String
default_profile_role = "user"

abbrev pub default_profile_status : String
default_profile_status = ""

abbrev pub default_snapshot_status : String
default_snapshot_status = ""

abbrev pub default_llm_status : String
default_llm_status = "LLM status loading..."

abbrev pub default_llm_context : String
default_llm_context = "Mid-range residential remodel in US market"

abbrev pub default_catalog_query : String
default_catalog_query = "counter"

abbrev pub default_catalog_import_json : String
default_catalog_import_json =
    "[{\"name\":\"Demo Bulk Item\",\"unit_price\":\"25.00\",\"labor_hours\":\"1.00\",\"description\":\"bulk import sample\"}]"

abbrev pub default_template_name : String
default_template_name = "Kitchen Base Template"

abbrev pub default_billing_amount : String
default_billing_amount = "1200.00"

abbrev pub default_billing_details : String
default_billing_details = "annual subscription simulation"

abbrev pub default_card_last4 : String
default_card_last4 = "4242"

abbrev pub default_subscription_id : String
default_subscription_id = "sub_demo_001"

abbrev pub default_cancel_reason : String
default_cancel_reason = "customer_requested"

abbrev pub default_status_target : String
default_status_target = "in_progress"

abbrev pub default_external_blockers : List String
default_external_blockers =
    "Confirm final pricing formula order with 2-3 known-output legacy examples."
    ∷ "Confirm hybrid billing rules: $10 trigger point, retry handling, reversals, and cancellation timing."
    ∷ "Provide Stripe ownership and key/webhook provisioning plan for live cutover."
    ∷ "Confirm audit retention/export policy for production."
    ∷ "Confirm expected launch usage/concurrency envelope for final SQLite launch tuning."
    ∷ "Provide written confirmation that legacy plaintext credentials were rotated." ∷ []
