-- ===== src/Migration/Plain/Context.antt =====
-- A context of alembic that writes down what is done.
use Prim.Native.String.{[], ◌∷◌}
use webhook_relay_api.Prelude.{
  String, ◌≡◌, refl, ap, Bool, false, not, ◌&&◌, Option, none, some, List, ◌++◌, ◌==◌, eq_iff,
  if◌then◌else◌, arith,
}
use webhook_relay_api.Result.{Result, ok, err, value_error, ◌>>=◌}
use webhook_relay_api.Text.{has_char, lone_percent}
use webhook_relay_api.Migration.Env.{Section, Alembic}

plain-lone : (s : String) → has_char b'%' s ≡ false → lone_percent s ≡ false
unfolding has_char lone_percent
plain-lone [] h = refl
plain-lone (c ∷ []) h = ground arith
plain-lone (c ∷ d ∷ s) h = ground (arith, plain-lone (d ∷ s))

-- A file of alembic, by its name and its main section.
pub record IniFile : Type 0 where
  pub file_name : Option String
  pub section : Section

abbrev pub with_option : String → String → Section → Section
with_option key value section = λ k. if k == key then some value else section k

unfoldable pub set_option : String → String → IniFile → Result IniFile
set_option key value file =
    if lone_percent value && not (has_char b'(' value)
    then err value_error
    else ok (record file { section = with_option key value file.section })

abbrev pub note : String → List String → Result (List String)
note what done = ok (done ++ List.◌∷◌ what List.[])

abbrev pub shown_url : Option String → String
shown_url none = "no URL"
shown_url (some url) = url

own_option :
    (key value : String) (section : Section) → with_option key value section key ≡ some value
own_option key value section = rw ((eq_iff key key).1 refl) refl

pub set_option_plain :
    (key value : String) (file : IniFile)
    → has_char b'%' value ≡ false
    → (file' : IniFile) × (section : Section) × (set_option key value file ≡ ok file')
      × (ok (file'.section key) ≡ ok (some value))
      × (ok file'.section ≡ ok section)
      × (section key ≡ some value)
unfolding set_option
set_option_plain key value file h = (
  record file { section = with_option key value file.section },
  with_option key value file.section,
  rw (plain-lone value h) refl,
  ap ok (own_option key value file.section),
  refl,
  own_option key value file.section,
)

unfoldable pub noting : Bool → Alembic IniFile (List String) String
unfolding set_option
noting offline = record {
  config_file_name = λ file. file.file_name;
  file_config = note;
  set_main_option = set_option;
  get_main_option = λ key file. ok (file.section key);
  get_main_section = λ file. ok file.section;
  is_offline_mode = offline;
  configure_url = λ url. note (shown_url url);
  configure_connection = note;
  begin_transaction = λ body done. do
    begun ← note "begin" done
    ran ← body begun
    note "commit" ran;
  run_migrations = note "migrate";
  with_connection = λ section body done. body (shown_url (section "sqlalchemy.url")) done;
  set_plain = set_option_plain;
  set_refused = λ key value file no_name lone. rw lone (rw no_name refl);
}
