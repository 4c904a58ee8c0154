-- ===== src/Tests/Mailer.antt =====
-- internal/mail/smtp.go: a mailer that signs in over STARTTLS.
use simplebank.Config.Settings.{Settings, from_command}
use simplebank.Errors.{Result, ok}
use simplebank.Prelude.{◌≡◌, ◌∷◌, [], refl, List, String, true, false, not, ◌&&◌, exists, str_eq}
use simplebank.Smtp.{
  ClientOption, with_port, with_tls_policy, tls_mandatory, with_tls_config, with_plain_auth,
  with_username, with_password, SmtpMailer, is_password, is_unencrypted, keeps_password,
  new_smtp_mailer, new_smtp_mailer-keeps_password,
}
use simplebank.Tests.Server.{settings}

abbrev with_login : Settings
with_login = record settings {
  smtp_username = "bank";
  smtp_insecure = false;
  smtp_ssl = false;
  smtp_tls_ca_file = "ca.pem";
}

abbrev client_of : String → List ClientOption → Result (List ClientOption)
client_of host options = ok options

abbrev mailer : SmtpMailer (List ClientOption)
mailer = record {
  client =
      with_port with_login.smtp_port
      ∷ with_tls_policy tls_mandatory
      ∷ with_tls_config with_login.smtp_host "ca.pem"
      ∷ with_plain_auth
      ∷ with_username "bank"
      ∷ with_password with_login.smtp_password
      ∷ [];
  from = with_login.smtp_from;
}

mailer_made : new_smtp_mailer (λ f. ok f) (λ pem. true) client_of with_login ≡ ok mailer
unfolding new_smtp_mailer from_command
mailer_made = refl

new_smtp_mailer-keeps_password_example :
    (options : List ClientOption) × (client_of with_login.smtp_host options ≡ ok mailer.client)
    × (mailer.from ≡ with_login.smtp_from)
    × (exists is_password options ≡ not (str_eq with_login.smtp_username ""))
    × (exists is_unencrypted options ≡ (with_login.smtp_insecure && not with_login.smtp_ssl))
    × (keeps_password options ≡ true)
new_smtp_mailer-keeps_password_example =
    new_smtp_mailer-keeps_password (λ f. ok f) (λ pem. true) client_of with_login mailer mailer_made
