-- ===== src/Database/Engine.antt =====
-- `init_db` and `_configure_sqlite_pragmas` (app/db/session.py): the engine that the sessions use.
-- What SQLAlchemy and the driver do with it is not modelled.
use webhook_relay_api.Prelude.{
  ℕ, String, ◌≡◌, refl, Bool, false, Option, none, some, List, [], ◌∷◌, ◌++◌, if◌then◌else◌,
}
use webhook_relay_api.Text.{startswith}

pub record ConnectArgs : Type 0 where
  pub check_same_thread : Bool
  pub timeout : ℕ

pub record Engine : Type 0 where
  pub url : String
  pub connect_args : Option ConnectArgs
  -- the statements that run on each new connection
  pub on_connect : List String

-- `sessionmaker(...)`
pub record SessionFactory : Type 0 where
  pub autocommit : Bool
  pub autoflush : Bool
  pub expire_on_commit : Bool
  pub bind : Engine

abbrev pub is_sqlite : String → Bool
is_sqlite url = startswith url "sqlite"

unfoldable pub configure_sqlite_pragmas : Engine → Engine
configure_sqlite_pragmas engine = record engine {
  on_connect =
      engine.on_connect
      ++ "PRAGMA journal_mode=WAL;" ∷ "PRAGMA synchronous=NORMAL;" ∷ "PRAGMA busy_timeout=5000;"
        ∷ [];
}

unfoldable pub create_engine : String → Engine
create_engine url = record {
  url = url;
  connect_args =
      if is_sqlite url then some (record { check_same_thread = false; timeout = 5 }) else none;
  on_connect = [];
}

unfoldable pub init_session : String → SessionFactory
unfolding create_engine configure_sqlite_pragmas
init_session url = record {
  autocommit = false;
  autoflush = false;
  expire_on_commit = false;
  bind = if is_sqlite url then configure_sqlite_pragmas (create_engine url) else create_engine url;
}

-- A database that is not SQLite gets no arguments and no pragmas.
others_plain :
    (url : String)
    → is_sqlite url ≡ false
    → (init_session url).bind ≡ record { url = url; connect_args = none; on_connect = [] }
unfolding init_session
others_plain url other = rw other refl

sqlite_waits :
    (init_session "sqlite:///./data/app.db").bind.connect_args
    ≡ some (record { check_same_thread = false; timeout = 5 })
unfolding init_session startswith
sqlite_waits = refl
