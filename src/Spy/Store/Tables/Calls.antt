-- ===== src/Spy/Store/Tables/Calls.antt =====
-- The statements on provider_call: `upsertPendingCall`, `updateResponseCall`, and the update of
-- `persistErrorEventUnlocked`.
use rootcell.Prelude.{
  ℕ, not, ◌&&◌, ◌||◌, List, [], ◌∷◌, ◌++◌, none, some, if◌then◌else◌, any, Text, codes, text_eq,
  Result, ok, err,
}
use rootcell.Spy.Records.{ProviderCall, CallStatus, pending, error}
use rootcell.Spy.Store.Tables.{Db, StoreError, duplicate_flow_id, has_call}

abbrev pub keep_status : CallStatus → CallStatus → CallStatus
keep_status pending new = new
keep_status old new = old

-- `DO UPDATE SET`
abbrev pub update_pending : ProviderCall → ProviderCall → ProviderCall
update_pending call old = record old {
  provider = call.provider;
  operation = call.operation;
  model_id = call.model_id;
  started_at = call.started_at;
  request_flow_id = call.request_flow_id;
  request_content_hash = call.request_content_hash;
  status = keep_status old.status call.status;
}

-- The columns that the insert sets.
abbrev pub inserted_call : ProviderCall → ProviderCall
inserted_call call = record call {
  completed_at = none;
  status_code = none;
  response_flow_id = none;
  response_content_hash = none;
}

abbrev pub update_call :
    Text → (ProviderCall → ProviderCall) → List ProviderCall → List ProviderCall
update_call id change [] = []
update_call id change (c ∷ calls) =
    (if text_eq c.id id then change c else c) ∷ update_call id change calls

unfoldable pub upsert_pending_call : ProviderCall → Db → Result StoreError Db
upsert_pending_call call db =
    if any (λ c. text_eq c.request_flow_id call.request_flow_id && not (text_eq c.id call.id))
      db.calls
    then err (duplicate_flow_id call.request_flow_id)
    else ok (record db {
      calls =
          if has_call db.calls call.id
          then update_call call.id (update_pending call) db.calls
          else db.calls ++ inserted_call call ∷ [];
    })

-- `model_id IN ('cursor', 'unknown')`
abbrev pub response_model : Text → Text → Text
response_model old new =
    if text_eq old (codes "cursor") || text_eq old (codes "unknown") then new else old

abbrev pub set_response : ProviderCall → ProviderCall → ProviderCall
set_response call old = record old {
  status = call.status;
  model_id = response_model old.model_id call.model_id;
  completed_at = call.completed_at;
  status_code = call.status_code;
  response_flow_id = call.response_flow_id;
  response_content_hash = call.response_content_hash;
}

unfoldable pub update_response_call : ProviderCall → Db → Db
update_response_call call db = record db {
  calls = update_call call.id (set_response call) db.calls;
}

abbrev pub set_error : ℕ → Text → ProviderCall → ProviderCall
set_error ts flow_id old = record old {
  status = error;
  completed_at = some ts;
  response_flow_id = some flow_id;
}

unfoldable pub update_error_call : ℕ → Text → Text → Db → Db
update_error_call ts flow_id id db = record db {
  calls = update_call id (set_error ts flow_id) db.calls;
}
