-- ===== src/Config/Root.antt =====
-- internal/config/config.go: the root configuration. The libraries' blocks, with their own Merge and
-- Finalize, are parameters.
pub mod Bounds
use go_web_service.Prelude.{String, Option, none, some, ℤ, Result, ok, err, wrapping}
use go_web_service.Config.Sweep
use go_web_service.Config.Sweep.{SweepConfig}
use go_web_service.Config.Reads
use go_web_service.Config.Reads.{ReadsConfig}
use go_web_service.Config.Admin
use go_web_service.Config.Admin.{AdminConfig}

-- A library's block. Finalize takes the environment's prefix.
pub record Block (A : Type 0) : Type 0 where
  pub merge : A → Option A → A
  pub finalize : String → A → Result A

pub record Blocks : Type 1 where
  pub Lifecycle : Type 0
  pub Log : Type 0
  pub Server : Type 0
  pub Database : Type 0
  pub Storage : Type 0
  pub Messaging : Type 0
  pub Nats : Type 0
  pub Observability : Type 0
  pub RateLimit : Type 0
  pub lifecycle : Block Lifecycle
  pub log : Block Log
  pub server : Block Server
  pub database : Block Database
  pub storage : Block Storage
  pub messaging : Block Messaging
  pub nats : Block Nats
  pub observability : Block Observability
  pub rate_limit : Block RateLimit

pub record Config (b : Blocks) : Type 0 where
  pub lifecycle : b.Lifecycle
  pub log : b.Log
  pub server : b.Server
  pub database : b.Database
  pub storage : b.Storage
  pub messaging : b.Messaging
  pub nats : b.Nats
  pub observability : b.Observability
  pub rate_limit : b.RateLimit
  pub reads : ReadsConfig
  pub admin : AdminConfig
  pub sweep : SweepConfig

-- What the environment holds under a prefix.
pub record Environment : Type 0 where
  pub duration_env : String → String → Result (Option ℤ)
  pub int_env : String → String → Result (Option ℤ)
  pub text_env : String → String → String

infixl 5 ◌>>=◌
abbrev pub ◌>>=◌ : {A B : Type 0} → Result A → (A → Result B) → Result B
ok a >>= f = f a
err e >>= f = err e

module _ (b : Blocks) where
  -- Merge; `none` is a nil source.
  unfoldable pub merge : Config b → Option (Config b) → Config b
  merge c none = c
  merge c (some src) = record {
    lifecycle = b.lifecycle.merge c.lifecycle (some src.lifecycle);
    log = b.log.merge c.log (some src.log);
    server = b.server.merge c.server (some src.server);
    database = b.database.merge c.database (some src.database);
    storage = b.storage.merge c.storage (some src.storage);
    messaging = b.messaging.merge c.messaging (some src.messaging);
    nats = b.nats.merge c.nats (some src.nats);
    observability = b.observability.merge c.observability (some src.observability);
    rate_limit = b.rate_limit.merge c.rate_limit (some src.rate_limit);
    reads = Reads.merge c.reads (some src.reads);
    admin = Admin.merge c.admin (some src.admin);
    sweep = Sweep.merge c.sweep (some src.sweep);
  }

  module _ (env : Environment) where
    -- Finalize: each block in order, its refusal under the block's label.
    unfoldable pub finalize : String → Config b → Result (Config b)
    finalize prefix c = do
      lifecycle ← b.lifecycle.finalize prefix c.lifecycle
      log ← wrapping "log" (b.log.finalize prefix c.log)
      server ← wrapping "server" (b.server.finalize prefix c.server)
      database ← wrapping "database" (b.database.finalize prefix c.database)
      storage ← wrapping "storage" (b.storage.finalize prefix c.storage)
      messaging ← wrapping "messaging" (b.messaging.finalize prefix c.messaging)
      nats ← b.nats.finalize prefix c.nats
      observability ← wrapping "observability" (b.observability.finalize prefix c.observability)
      rate_limit ← wrapping "rate_limit" (b.rate_limit.finalize prefix c.rate_limit)
      reads ← wrapping "reads" (Reads.finalize (env.int_env prefix) c.reads)
      sweep ←
          wrapping "sweep" (Sweep.finalize (env.duration_env prefix) (env.int_env prefix) c.sweep)
      ok (record {
        lifecycle = lifecycle;
        log = log;
        server = server;
        database = database;
        storage = storage;
        messaging = messaging;
        nats = nats;
        observability = observability;
        rate_limit = rate_limit;
        reads = reads;
        admin = Admin.finalize (env.text_env prefix "admin_seed") c.admin;
        sweep = sweep;
      })
