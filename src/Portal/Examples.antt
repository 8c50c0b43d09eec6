-- ===== src/Portal/Examples.antt =====
-- A short history of the portal, and the theorems applied to it.
use onlineaggrement.Base.{false, codes, true, [], ◌∷◌, none, some, length}
use onlineaggrement.Errors.{ok}
use onlineaggrement.Database.{World, empty_db, AgreementRow, user, EsignStatus}
use onlineaggrement.Workflow.States.{completed, cancel, Role}
use onlineaggrement.Workflow.Service.{TransitionRequest, no_patch}
use onlineaggrement.Esign.{Provider}
use onlineaggrement.Portal.{Outside}
use onlineaggrement.Signing.Worlds.{platform}
use onlineaggrement.Signing.Ceremony.{ActionContext}

abbrev provider : Provider
provider = record {
  name = "mock";
  is_hash_mode = true;
  initiate_signing = λ now request. ok "t1";
  get_status = λ now id. ok (record { status = EsignStatus.signed; failure_code = none });
  get_signature = λ now id. ok [];
  verify_callback = λ now body. none;
}

abbrev outside : Outside
outside = record {
  platform = platform;
  provider = provider;
  authoring = record {
    render = λ r. ok [];
    to_pdf = λ file filename content_type. ok file;
    compose = λ file scan. ok (record { buffer = file; page_count = 1 });
    count_pages = λ file. ok 1;
  };
  credentials = record {
    compare = λ plain hash. false;
    draw_token = λ n. codes "t";
    digest = length;
    issue = λ s. codes "jwt";
    ttl_hours = 72;
  };
  hashing = record {
    random_bytes = λ n. n ∷ [];
    hash = λ n plain. plain;
    compare = λ plain hash. false;
  };
  mailer = record {
    sender = codes "portal";
    send = λ n mail. ok none;
    signed_url = λ key now. codes "url";
    verify_base_url = codes "v";
  };
  signed_url = λ key now. codes "url";
}

abbrev executed : AgreementRow
executed = record {
  id = 7;
  agreement_number = codes "A";
  agreement_type_id = 1;
  template_version_id = none;
  status = completed;
  current_version = 1;
  row_version = 3;
  place_of_execution_state = none;
  form = [];
  bank_id = none;
  created_by = 1;
  updated_at = 0;
  stamped = true;
  external_parties = false;
  expires_at = some 10;
  execution_reference = none;
  verification_token = some (codes "v");
  completed_at = some 9;
  rejected_reason = none;
  rejected_by = none;
  rejected_at = none;
}

abbrev world : World
world = record {
  db = record empty_db { agreements = executed ∷ [] };
  objects = [];
  now = 1000;
  next_id = 50;
}

abbrev cancellation : TransitionRequest
cancellation = record {
  agreement_id = 7;
  action = cancel;
  actor_id = some 1;
  actor_roles = Role.super_admin ∷ [];
  trigger = user;
  reason = none;
  audit_event = none;
  audit_data = [];
  ip_address = none;
  user_agent = none;
  patch = no_patch;
}

abbrev client : ActionContext
client = record { ip_address = none; user_agent = none }
