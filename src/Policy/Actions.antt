-- ===== src/Policy/Actions.antt =====
-- internal/policy/actions.go. The HTTP client, encoding/json and the backends of the email, command and
-- notification actions are arguments; the logger is left out. The map of a registry is the list of its
-- entries, the newest first.
use oneops.Base.{
  ℕ, Bool, ◌||◌, Option, none, some, List, [], ◌∷◌, Text, codes, text_eq, leb, ltb, if◌then◌else◌,
  is_empty, find, any,
}
use oneops.Domain.Errors.{Error, Result, ok, err, message}
use oneops.Policy.Types.{PolicyEvent}

-- How a run of an action ends.
pub data ActionResult : Type 0 where
  done : ActionResult
  refused : Error → ActionResult
  panicked : Text → ActionResult

-- `Action`: what Run does, at the number of the interaction, with an event and a configuration.
abbrev pub Action : Type 0
Action = ℕ → PolicyEvent → Text → ActionResult

-- `Registry`
abbrev pub Registry : Type 0
Registry = List (Text × Action)

abbrev pub is_action : Text → Text × Action → Bool
is_action action_type entry = text_eq entry.0 action_type

-- `Register`
abbrev pub register : Text → Action → Registry → Registry
register action_type a r = (action_type, a) ∷ r

-- `Has`
unfoldable pub has_action : Text → Registry → Bool
has_action action_type r = any (is_action action_type) r

-- `Registry.Run`
unfoldable pub run_action : Registry → Text → Action
run_action r action_type n ev config = elim (find (is_action action_type) r) [
  | none ↦ refused (message "policy: unknown action type")
  | some entry ↦ entry.1 n ev config
]

abbrev of_error : Option Error → ActionResult
of_error none = done
of_error (some x) = refused x

-- What the HTTP action uses of other libraries: the URL of a configuration, the JSON of an event, the
-- parsing of a URL, and the client, which gives a status code.
pub record HttpBackend : Type 0 where
  pub config_url : Text → Result Text
  pub marshal_event : PolicyEvent → Result Text
  pub url_error : Text → Option Error
  pub send : ℕ → Text → Text → Result ℕ

abbrev http_answer : Result ℕ → ActionResult
http_answer (err x) = refused x
http_answer (ok code) =
    if ltb code 200 || leb 300 code then refused (message "policy http action: status") else done

abbrev http_send : HttpBackend → ℕ → Text → Result Text → ActionResult
http_send b n url (err x) = refused x
http_send b n url (ok body) = elim (b.url_error url) [
  | some x ↦ refused x
  | none ↦ http_answer (b.send n url body)
]

-- `HTTPAction.Run`
unfoldable pub http_action : HttpBackend → Action
http_action b n ev config = elim (b.config_url config) [
  | err x ↦ refused x
  | ok url ↦
      if is_empty url
      then refused (message "policy http action: url is required")
      else http_send b n url (b.marshal_event ev)
]

-- `EmailAction.Run` and `CommandAction.Run`
unfoldable pub backend_action : Option Action → Action
backend_action none n ev config = refused (message "policy: action backend not configured")
backend_action (some backend) n ev config = backend n ev config

-- `NotificationAction.Run`: without a notifier the event is logged.
unfoldable pub notification_action : Option Action → Action
notification_action none n ev config = done
notification_action (some notifier) n ev config = notifier n ev config

-- `DefaultRegistry`
unfoldable pub default_registry :
    HttpBackend → Option Action → Option Action → Option Action → Registry
unfolding http_action backend_action notification_action
default_registry http email command notifier =
    register (codes "notification") (notification_action notifier) (
      register (codes "command") (backend_action command) (
        register (codes "email") (backend_action email)
          (register (codes "http") (http_action http) [])))
