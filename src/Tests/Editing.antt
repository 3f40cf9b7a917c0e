-- ===== src/Tests/Editing.antt =====
-- The theorems about `ofcds_editconfig` of server/ofconfig-datastore.c, with a database library in which
-- every commit succeeds.
use of_config.Base.{codes, false, none, some, [], ◌∷◌, refl}
use of_config.Error.{ok}
use of_config.Xml.{Doc}
use of_config.Edit.Operation.{DefOp}
use of_config.Edit.Apply.{Live}
use of_config.Edit.Operations.Checks.{mode_all}
use of_config.Datastore.Locks.{running, error}
use of_config.Datastore.Content.{Store}
use of_config.Datastore.Content.Rollback.{at_startup, datastore}
use of_config.Datastore.Editing.{Library, Handler, Serving, success, ofcds_editconfig}
use of_config.Datastore.Editing.Closed.{Closed, ofcds_editconfig-Closed}
use of_config.Datastore.Editing.Remembered.{Remembered, ofcds_editconfig-Remembered}
use of_config.Tests.Sample.{as_op, capable_switch, edit_resources, el}

abbrev Nothing : Type 0
Nothing = Unit {0}

abbrev library : Library Nothing
library = record {
  txn_create = λ v. v;
  txn_destroy = λ v. v;
  commit_block = λ v. (success, v);
  get_error = λ v. "";
}

abbrev edit_doc : Doc
edit_doc = el "capable-switch" (edit_resources ∷ []) ∷ []

abbrev serving : Serving Nothing
serving = record {
  read = λ t. some edit_doc;
  mode = mode_all;
  as_op = as_op;
  config_data = λ h. some [];
  of_post_ports = λ root added v. (ok tt, v);
}

abbrev obliging : Live (Handler Nothing)
obliging = record {
  on_delete = λ z h. ((ok tt, []), h);
  on_create = λ z h. ((ok tt, []), h);
  del_all = λ h. (ok tt, h);
}

abbrev handler : Handler Nothing
handler = record { base = tt; active = false; added_interface = false }

abbrev store : Store Doc (Handler Nothing)
store = record {
  db = handler;
  gds_startup = some (capable_switch ∷ []);
  gds_cand = none;
  rollback_doc = none;
  rollback_type = error;
  rollbacking = false;
}

ofcds_editconfig-Closed_example :
    Closed library serving obliging
      (ofcds_editconfig library serving obliging 20 running (codes "<edit/>") DefOp.merge store)
ofcds_editconfig-Closed_example =
    ofcds_editconfig-Closed library serving obliging 20 (codes "<edit/>") DefOp.merge store refl

ofcds_editconfig-Remembered_example : Remembered library serving obliging at_startup store (
    ofcds_editconfig library serving obliging 20
      (datastore at_startup)
      (codes "<edit/>")
      DefOp.merge
      store)
ofcds_editconfig-Remembered_example =
    ofcds_editconfig-Remembered library serving obliging 20 at_startup (codes "<edit/>") edit_doc
      DefOp.merge store refl
