-- ===== src/Database/Engine/Sample.antt =====
-- An engine without faults: the libraries' laws hold of it by computation.
use go_web_service.Prelude.{refl, none, []}
use go_web_service.Database.Engine.{Engine, settle, recorded}

abbrev pub engine : {Tree : Type 0} → Engine Tree
engine = record {
  transact = λ A f db. settle (λ _. none) db (f db);
  commit_fault = λ _. none;
  transact_lem = λ A f db. refl;
  emit = λ A f db. recorded (λ _. none) (f (record { db = db; queue = [] }));
  publish_fault = λ _. none;
  emit_lem = λ A f db. refl;
}
