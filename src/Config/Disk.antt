-- ===== src/Config/Disk.antt =====
-- Writing the configuration: `writePrivateFileAtomically`, `writeRuntimeSecrets`, `Flush` and
-- `loadRuntimeSecrets`. A file is what it holds; leftover temporary files are not modelled.
-- The YAML package is the parameter `Yaml`, and what the operating system answers is `OsAnswers`.
use mihomo_loongnix.Prelude.{
  String, Bool, true, false, not, Option, none, some, ◌≡◌, if◌then◌else◌, ◌==◌, string_eq,
}
use mihomo_loongnix.Config.Types.{Config}
use mihomo_loongnix.Config.Secrets.{
  RuntimeSecrets, secrets_from_config, public_config_for_disk, merge_runtime_secrets,
}

pub record Yaml (Doc : Type 0) : Type 0 where
  pub marshal_config : Config → Option Doc
  pub unmarshal_config : Doc → Option Config
  pub marshal_secrets : RuntimeSecrets → Option Doc
  pub unmarshal_secrets : Doc → Option RuntimeSecrets

-- What the YAML package documents: reading back what was written.
pub record ReadsBack {Doc : Type 0} (yaml : Yaml Doc) : Type 0 where
  pub config :
      (c : Config) (d : Doc) → yaml.marshal_config c ≡ some d → yaml.unmarshal_config d ≡ some c
  pub secrets :
      (s : RuntimeSecrets) (d : Doc)
      → yaml.marshal_secrets s ≡ some d
      → yaml.unmarshal_secrets d ≡ some s

-- The four calls of one atomic write.
pub record WriteAnswers : Type 0 where
  pub write_tmp : Bool
  pub chmod_tmp : Bool
  pub rename : Bool
  pub chmod : Bool

pub record OsAnswers : Type 0 where
  pub mkdir_secrets : Bool
  pub chmod_secrets : Bool
  pub secrets_file : WriteAnswers
  pub config_file : WriteAnswers

-- The two files; `none` is a file that does not exist.
pub record Disk (Doc : Type 0) : Type 0 where
  pub secrets : Option Doc
  pub config : Option Doc

pub data FlushError : Type 0 where
  secrets_dir secrets_marshal secrets_write config_marshal config_write : FlushError

-- Whether the write succeeded, and what the file then holds.
unfoldable pub write_private_file_atomically :
    {Doc : Type 0} → WriteAnswers → Option Doc → Doc → Bool × Option Doc
write_private_file_atomically os old doc =
    if not os.write_tmp
    then (false, old)
    else if not os.chmod_tmp
    then (false, old)
    else if not os.rename
    then (false, old)
    else (os.chmod, some doc)

unfoldable pub write_runtime_secrets :
    {Doc : Type 0} → Yaml Doc → OsAnswers → Config → Disk Doc → Option FlushError × Disk Doc
unfolding write_private_file_atomically
write_runtime_secrets yaml os c disk =
    if not os.mkdir_secrets
    then (some secrets_dir, disk)
    else if not os.chmod_secrets
    then (some secrets_dir, disk)
    else elim (yaml.marshal_secrets (secrets_from_config c)) [
      | none ↦ (some secrets_marshal, disk)
      | some doc ↦
          let (done, file) = write_private_file_atomically os.secrets_file disk.secrets doc in
          (if done then none else some secrets_write, record disk { secrets = file })
    ]

-- The default log directory is not stored, so that each user computes it anew.
unfoldable pub config_for_file : String → Config → Config
config_for_file default_log_dir c =
    let public = public_config_for_disk c in
    record public { log_dir = if public.log_dir == default_log_dir then "" else public.log_dir }

unfoldable pub write_config_file :
    {Doc : Type 0}
    → Yaml Doc
    → String
    → OsAnswers
    → Config
    → Disk Doc
    → Option FlushError × Disk Doc
unfolding write_private_file_atomically
write_config_file yaml default_log_dir os c disk =
    elim (yaml.marshal_config (config_for_file default_log_dir c)) [
      | none ↦ (some config_marshal, disk)
      | some doc ↦
          let (done, file) = write_private_file_atomically os.config_file disk.config doc in
          (if done then none else some config_write, record disk { config = file })
    ]

-- `Flush`: the private values first, then the main configuration.
unfoldable pub flush :
    {Doc : Type 0}
    → Yaml Doc
    → String
    → OsAnswers
    → Config
    → Disk Doc
    → Option FlushError × Disk Doc
flush yaml default_log_dir os c disk =
    let (failed, disk') = write_runtime_secrets yaml os c disk in
    elim failed [
      | some e ↦ (some e, disk')
      | none ↦ write_config_file yaml default_log_dir os c disk'
    ]

-- What reading meets where the files exist: whether each can be read, and whether the mode of the
-- private one can be tightened.
pub record ReadAnswers : Type 0 where
  pub read_config : Bool
  pub read_secrets : Bool
  pub chmod_secrets : Bool

abbrev pub all_readable : ReadAnswers
all_readable = record { read_config = true; read_secrets = true; chmod_secrets = true }

-- `none` is an error; a file that is not there is none.
unfoldable pub load_runtime_secrets :
    {Doc : Type 0} → Yaml Doc → ReadAnswers → Option Doc → Config → Option Config
load_runtime_secrets yaml os none c = some c
load_runtime_secrets yaml os (some doc) c =
    if not os.read_secrets
    then none
    else if not os.chmod_secrets
    then none
    else elim (yaml.unmarshal_secrets doc) [
      | none ↦ none
      | some secrets ↦ some (merge_runtime_secrets secrets c)
    ]
