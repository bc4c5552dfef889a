-- ===== src/Login/Auth.antt =====
-- The authentication of a request to the login service (app/login/internal/handlers/middleware/auth.go,
-- over internal/infra/mongo/repo/account.go).
--
-- The token library is a parameter. The collection of accounts is a list; what fails during a request
-- and what other requests insert meanwhile are arguments. Texts are lists of bytes.
pub mod Unique
mod Samples
use ggs.Prelude.{
  ℕ, zero, suc, Bool, true, false, Option, none, some, List, [], ◌∷◌, ◌++◌, ◌==◌, if◌then◌else◌,
  Result, ok, err,
}
use ggs.Prelude.Int.{ℤ}
use ggs.Prelude.Map.{bytes_eq}

abbrev pub Text : Type 0
Text = List ℕ

-- `models.Account` and `models.AccountInfo`
pub record Account : Type 0 where
  pub id : ℤ
  pub uid : Text

pub record AccountInfo : Type 0 where
  pub account_id : ℤ
  pub user_uid : Text

-- What `Auth` answers instead of going on: 401 with `ErrCodeAuthFailed`, or 500.
pub data AuthError : Type 0 where
  header_format token_missing token_invalid : AuthError
  server_error : AuthError

pub record Request : Type 0 where
  pub authorization : Text
  pub query_token : Option Text

abbrev pub bearer : Text
bearer = b'B' ∷ b'e' ∷ b'a' ∷ b'r' ∷ b'e' ∷ b'r' ∷ []

-- `strings.SplitN(s, " ", 2)` in two parts, where there is a space.
unfoldable pub split_space : Text → Option (Text × Text)
split_space [] = none
split_space (c ∷ s) =
    let rest = split_space s in
    if c == b' ' then some ([], s) else elim rest [ none ↦ none | some p ↦ some (c ∷ p.0, p.1) ]

abbrev pub bearer_token : Option (Text × Text) → Result AuthError Text
bearer_token none = err header_format
bearer_token (some (kind, token)) = if bytes_eq.beq kind bearer then ok token else err header_format

-- The first part of `Auth`.
unfoldable pub token_string : Request → Result AuthError Text
token_string r = elim r.authorization [
  | [] ↦ elim r.query_token [ none ↦ err token_missing | some t ↦ ok t ]
  | c ∷ s ↦ bearer_token (split_space (c ∷ s))
]

-- The token library with the service's key and stage: the subject of a token that it accepts and
-- whose issuer is the stage, and the user that a subject names.
pub record Tokens : Type 1 where
  pub Claims : Type 0
  pub parse : Text → Option Claims
  pub verify_issuer : Claims → Bool
  pub get_sub : Claims → Option Text
  pub unmarshal_uid : Text → Option Text

-- `parseToken`
unfoldable pub parse_token : Tokens → Text → Option Text
parse_token k token = elim (k.parse token) [
  | none ↦ none
  | some claims ↦
      if k.verify_issuer claims
      then (elim (k.get_sub claims) [ none ↦ none | some sub ↦ k.unmarshal_uid sub ])
      else none
]

-- `FindOne` by the user.
unfoldable pub find_account : Text → List Account → Option Account
find_account uid [] = none
find_account uid (a ∷ accs) =
    let rest = find_account uid accs in if bytes_eq.beq a.uid uid then some a else rest

-- `CreateOrGetAccount`, where the driver does not fail.
unfoldable pub create_or_get_account : Account → List Account → Account × List Account
create_or_get_account a accs = elim (find_account a.uid accs) [
  | some found ↦ (found, accs)
  | none ↦ (a, a ∷ accs)
]

-- What happens during a request: which calls fail, the identifier that is made, what other requests
-- insert before the account is made, and whether a failing call has made it.
pub record AuthRun : Type 0 where
  pub get_fails : Bool
  pub generated : Option ℤ
  pub others : List Account
  pub create_fails : Bool
  pub made : Bool

-- The end of `getOrCreateAccount`, with the identifier generated.
unfoldable pub create_account : AuthRun → Text → ℤ → List Account → Option Account × List Account
create_account run uid id accs =
    let (a, accs') = create_or_get_account (record { id = id; uid = uid }) accs in
    if run.create_fails then (none, if run.made then accs' else accs) else (some a, accs')

-- `getOrCreateAccount`
unfoldable pub get_or_create_account : AuthRun → Text → List Account → Option Account × List Account
get_or_create_account run uid accs =
    if run.get_fails then (none, accs) else elim (find_account uid accs) [
      | some a ↦ (some a, accs)
      | none ↦ elim run.generated [
        | none ↦ (none, accs)
        | some id ↦ create_account run uid id (run.others ++ accs)
      ]
    ]

-- What a request goes on with, once its user is known.
abbrev pub account_info :
    Text → Option Account × List Account → Result AuthError AccountInfo × List Account
account_info uid (none, accs) = (err server_error, accs)
account_info uid (some a, accs) = (ok (record { account_id = a.id; user_uid = uid }), accs)

unfoldable pub auth_token :
    Tokens → AuthRun → Text → List Account → Result AuthError AccountInfo × List Account
auth_token k run token accs = elim (parse_token k token) [
  | none ↦ (err token_invalid, accs)
  | some uid ↦ account_info uid (get_or_create_account run uid accs)
]

-- `Auth`
unfoldable pub auth :
    Tokens → AuthRun → Request → List Account → Result AuthError AccountInfo × List Account
auth k run r accs = elim (token_string r) [
  | err e ↦ (err e, accs)
  | ok token ↦ auth_token k run token accs
]
