-- ===== src/Smtp.antt =====
-- internal/mail/smtp.go: how a mailer is set up, and what it sends.
use simplebank.Config.Settings.{Settings}
use simplebank.Errors.{Result, ok, err, foreign, refuse_if, ◌>>=◌, ◌>>◌}
use simplebank.Prelude.{
  sym, ap, ◌∙◌, subst, ◌≡◌, refl, arith, ℤ, String, Bool, true, false, not, ◌&&◌, ◌||◌, List, [],
  ◌∷◌, ◌++◌, exists, str_eq, if◌then◌else◌,
}

pub data TlsPolicy : Type 0 where
  no_tls tls_mandatory : TlsPolicy

-- The options that `mail.NewClient` is called with. The certificates are given as the text of
-- their file.
pub data ClientOption : Type 0 where
  with_port : ℤ → ClientOption
  with_ssl : ClientOption
  with_tls_policy : TlsPolicy → ClientOption
  with_tls_config : String → String → ClientOption
  with_plain_auth : ClientOption
  with_username with_password : String → ClientOption

-- A client, and the address that mails come from.
pub record SmtpMailer (Client : Type 0) : Type 0 where
  pub client : Client
  pub from : String

abbrev pub tls_option : Settings → ClientOption
tls_option c =
    if c.smtp_ssl
    then with_ssl
    else if c.smtp_insecure
    then with_tls_policy no_tls
    else with_tls_policy tls_mandatory

-- `os.ReadFile`, and whether a text has a certificate.
abbrev pub ca_options :
    (String → Result String) → (String → Bool) → Settings → Result (List ClientOption)
ca_options read_file has_certs c = if str_eq c.smtp_tls_ca_file "" then ok [] else (do
  pem ← read_file c.smtp_tls_ca_file
  refuse_if (not (has_certs pem)) (foreign "no certificates found")
  ok (with_tls_config c.smtp_host pem ∷ []))

abbrev pub auth_options : Settings → Result (List ClientOption)
auth_options c = if str_eq c.smtp_username "" then ok [] else (do
  refuse_if (c.smtp_insecure && not c.smtp_ssl) (foreign "smtp auth requires TLS")
  ok (with_plain_auth ∷ with_username c.smtp_username ∷ with_password c.smtp_password ∷ []))

unfoldable pub new_smtp_mailer :
    {Client : Type 0}
    → (String → Result String)
    → (String → Bool)
    → (String → List ClientOption → Result Client)
    → Settings
    → Result (SmtpMailer Client)
new_smtp_mailer read_file has_certs new_client c = do
  ca ← ca_options read_file has_certs c
  auth ← auth_options c
  client ← new_client c.smtp_host (with_port c.smtp_port ∷ tls_option c ∷ (ca ++ auth))
  ok (record { client = client; from = c.smtp_from })

-- A message as the client gets it.
pub record Message : Type 0 where
  pub sender : String
  pub recipient : String
  pub subject : String
  pub html : String

-- Whether an address is one is what the package says; the client then dials and sends.
unfoldable pub send_mail :
    {Client : Type 0}
    → (String → Bool)
    → (Client → Message → Result (Unit {0}))
    → SmtpMailer Client
    → String
    → String
    → String
    → Result (Unit {0})
send_mail is_address dial_and_send mailer to subject html_body = do
  refuse_if (not (is_address mailer.from)) (foreign "invalid sender")
  refuse_if (not (is_address to)) (foreign "invalid recipient")
  dial_and_send mailer.client
      (record { sender = mailer.from; recipient = to; subject = subject; html = html_body })

abbrev pub is_password : ClientOption → Bool
is_password (with_password _) = true
is_password _ = false

abbrev pub is_unencrypted : ClientOption → Bool
is_unencrypted (with_tls_policy no_tls) = true
is_unencrypted _ = false

abbrev pub is_encrypted : ClientOption → Bool
is_encrypted with_ssl = true
is_encrypted (with_tls_policy tls_mandatory) = true
is_encrypted _ = false

-- Options that hand out a password only over an encrypted connection.
abbrev pub keeps_password : List ClientOption → Bool
keeps_password options =
    not (exists is_password options)
    || (exists is_encrypted options && not (exists is_unencrypted options))

after_ok :
    {A R : Type 0} (r : Result A) (f : A → Result R) (b : R)
    → (r >>= f) ≡ ok b
    → (a : A) × (r ≡ ok a) × (f a ≡ ok b)
after_ok (err e) f b h = absurd (cc h)
after_ok (ok a) f b h = (a, refl, h)

result_inj : {A : Type 0} {a b : A} → ok a ≡ ok b → a ≡ b
result_inj h = cc h

-- At most one option names a certificate.
data Pinned : List ClientOption → Type 0 where
  system_roots : Pinned []
  pinned : (host pem : String) → Pinned (with_tls_config host pem ∷ [])

ca_options-Pinned :
    (read_file : String → Result String) (has_certs : String → Bool) (c : Settings)
    (ca : List ClientOption)
    → ca_options read_file has_certs c ≡ ok ca
    → Pinned ca
ca_options-Pinned read_file has_certs c ca h =
    pinned_if (str_eq c.smtp_tls_ca_file "") (read_file c.smtp_tls_ca_file) h
  where
    pinned_if :
        (no_file : Bool) (r : Result String)
        → (if no_file
            then ok []
            else (r >>= (λ pem.
                refuse_if (not (has_certs pem)) (foreign "no certificates found")
                >> ok (with_tls_config c.smtp_host pem ∷ []))))
          ≡ ok ca
        → Pinned ca
    pinned_if true r h = subst Pinned (result_inj h) system_roots
    pinned_if false (err e) h = absurd (cc h)
    pinned_if false (ok pem) h = after (has_certs pem) h
      where
        after :
            (found : Bool)
            → (refuse_if (not found) (foreign "no certificates found")
                >> ok (with_tls_config c.smtp_host pem ∷ []))
              ≡ ok ca
            → Pinned ca
        after true h = subst Pinned (result_inj h) (pinned _ pem)
        after false h = absurd (cc h)

-- What a client is set up with.
abbrev IsSetUp : Settings → List ClientOption → Type 0
IsSetUp c options =
    (exists is_password options ≡ not (str_eq c.smtp_username ""))
    × (exists is_unencrypted options ≡ (c.smtp_insecure && not c.smtp_ssl))
    × (keeps_password options ≡ true)

options-IsSetUp :
    (c : Settings) (ca auth : List ClientOption)
    → Pinned ca
    → auth_options c ≡ ok auth
    → IsSetUp c (with_port c.smtp_port ∷ tls_option c ∷ (ca ++ auth))
options-IsSetUp c ca auth system_roots h = ground arith
options-IsSetUp c ca auth (pinned host pem) h = ground arith

-- A mailer that was set up holds a client for the configured host that has a password exactly if
-- a username is configured, is unencrypted exactly if the configuration asks for that and not for
-- SSL, and never has a password without an encrypted connection.
pub new_smtp_mailer-keeps_password :
    {Client : Type 0} (read_file : String → Result String) (has_certs : String → Bool)
    (new_client : String → List ClientOption → Result Client) (c : Settings) (m : SmtpMailer Client)
    → new_smtp_mailer read_file has_certs new_client c ≡ ok m
    → (options : List ClientOption) × (new_client c.smtp_host options ≡ ok m.client)
      × (m.from ≡ c.smtp_from)
      × (exists is_password options ≡ not (str_eq c.smtp_username ""))
      × (exists is_unencrypted options ≡ (c.smtp_insecure && not c.smtp_ssl))
      × (keeps_password options ≡ true)
unfolding new_smtp_mailer
new_smtp_mailer-keeps_password {Client = Client} read_file has_certs new_client c m h =
    let (ca, read, h1) = after_ok (ca_options read_file has_certs c) _ m h in
    let (auth, asked, h2) = after_ok (auth_options c) _ m h1 in
    let (client, made, same) = after_ok (new_client c.smtp_host _) _ m h2 in
    let kept = result_inj same in
    let (credentials, plain, safe) =
      options-IsSetUp c ca auth (ca_options-Pinned read_file has_certs c ca read) asked in
    (
      _,
      made ∙ ap (λ (n : SmtpMailer Client). ok n.client) kept,
      sym (ap (λ (n : SmtpMailer Client). n.from) kept),
      credentials,
      plain,
      safe,
    )
