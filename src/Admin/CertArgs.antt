-- ===== src/Admin/CertArgs.antt =====
-- The options `-domainCert` among the extra arguments of the server, `src/ngrok/admin/main.go`.
pub mod Fields
pub mod Lookup
use ngrok.Prelude.{◌||◌, List, [], ◌∷◌, ◌++◌, Option, none, some, if◌then◌else◌}
use ngrok.Prelude.Text.{Text, text, same, split_n, join, is_space, after_prefix}
use ngrok.Admin.Config.{has_prefix}
use ngrok.Admin.Names.{fields_func, normalize_domain}

abbrev pub flag : Text
flag = text "-domainCert"

abbrev pub flag_eq : Text
flag_eq = text "-domainCert="

-- The two paths of a value, if neither is empty.
unfoldable pub cert_parts : List Text → Option (Text × Text)
cert_parts (crt ∷ key ∷ []) = if same crt [] || same key [] then none else some (crt, key)
cert_parts parts = none

unfoldable pub parse_domain_cert_value : Text → Text → Option (Text × Text)
parse_domain_cert_value value prefix = elim (after_prefix prefix value) [
  | none ↦ none
  | some rest ↦ cert_parts (split_n b':' 2 rest)
]

-- The option and its value in one field.
unfoldable pub inline_value : Text → Text → Option (Text × Text)
inline_value prefix field = elim (after_prefix flag_eq field) [
  | none ↦ none
  | some value ↦ parse_domain_cert_value value prefix
]

-- The loop of `domainCertArgPaths`.
unfoldable pub find_cert : Text → List Text → Option (Text × Text)
find_cert prefix [] = none
find_cert prefix (field ∷ []) = inline_value prefix field
find_cert prefix (field ∷ next ∷ fields) =
    let behind = find_cert prefix fields in
    let rest = find_cert prefix (next ∷ fields) in
    if same field flag
    then elim (parse_domain_cert_value next prefix) [ none ↦ behind | some paths ↦ some paths ]
    else elim (inline_value prefix field) [ none ↦ rest | some paths ↦ some paths ]

-- `strings.Fields`
abbrev pub fields_of : Text → List Text
fields_of = fields_func is_space

unfoldable pub domain_cert_arg_paths : Text → Text → Option (Text × Text)
domain_cert_arg_paths extra_args domain = find_cert (domain ++ b':' ∷ []) (fields_of extra_args)

-- The loop of `upsertDomainCertArg` and `removeDomainCertArg`.
unfoldable pub without_cert : Text → List Text → List Text
without_cert prefix [] = []
without_cert prefix (field ∷ []) = if has_prefix field (flag_eq ++ prefix) then [] else field ∷ []
without_cert prefix (field ∷ next ∷ fields) =
    let behind = without_cert prefix fields in
    let rest = without_cert prefix (next ∷ fields) in
    if same field flag
    then (if has_prefix next prefix then behind else field ∷ rest)
    else if has_prefix field (flag_eq ++ prefix)
    then rest
    else field ∷ rest

-- The option for a domain.
abbrev pub cert_arg : Text → Text → Text → Text
cert_arg domain crt_path key_path = flag_eq ++ (domain ++ (b':' ∷ (crt_path ++ b':' ∷ key_path)))

unfoldable pub upsert_domain_cert_arg : Text → Text → Text → Text → Text
upsert_domain_cert_arg extra_args domain crt_path key_path = join (text " ") (
    without_cert (domain ++ b':' ∷ []) (fields_of extra_args)
    ++ cert_arg domain crt_path key_path ∷ [])

unfoldable pub remove_domain_cert_arg : Text → Text → Text
remove_domain_cert_arg extra_args domain =
    join (text " ") (without_cert (normalize_domain domain ++ b':' ∷ []) (fields_of extra_args))
