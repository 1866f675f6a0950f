-- ===== src/Config/Laws.antt =====
-- When the environment gives a configuration, which one, and which error comes first otherwise.
use pv_matter.Common.{
  ℕ, ◌≤◌, ◌≡◌, ◌↔◌, ◌⊎◌, refl, inl, inr, true, false, Option, none, some, Result, ok, err, get_or,
  Option-cases, arith, is_some,
}
use pv_matter.Text.{Text, codes, is_empty, trim}
use pv_matter.Number.{u16_max, u64_max, parse_unsigned}
use pv_matter.Number.Laws.{IsNumeral, parse_unsigned_iff}
use pv_matter.Config.{
  Config, ConfigError, host_required, mqtt_port_invalid, matter_port_invalid, no_home,
  timeout_invalid, Surroundings, var, number_or, storage_or, join, require, from_env, ◌>>=◌,
}

-- The variable is set, and not only to white space.
abbrev pub IsSetTo : Surroundings → Text → Text → Type 0
IsSetTo sur name v = (sur.env_var name ≡ some v) × (is_empty (trim v) ≡ false)

-- A variable counts exactly if it is set to more than white space, and then untrimmed.
pub var_iff : (sur : Surroundings) (name v : Text) → (var sur name ≡ some v) ↔ IsSetTo sur name v
unfolding var
var_iff sur name v = ground arith

-- `n` is the number that the variable spells, or the default if it is not set.
abbrev pub IsNumber : ℕ → Option Text → ℕ → ℕ → Type 0
IsNumber max none default n = n ≡ default
IsNumber max (some v) default n = IsNumeral v n × (n ≤ max)

-- The variable is set and spells no number that fits.
abbrev pub IsBadNumber : ℕ → Option Text → Type 0
IsBadNumber max none = ⊥
IsBadNumber max (some v) = (n : ℕ) → ¬ (IsNumeral v n × (n ≤ max))

abbrev pub IsStorage : Option Text → Option Text → Text → Type 0
IsStorage (some p) home path = path ≡ p
IsStorage none home path = (h : Text) × (home ≡ some h) × (path ≡ join h (codes ".pv-matter"))

-- What the fields of a configuration are.
pub record IsConfig (sur : Surroundings) (c : Config) : Type 0 where
  pub mqtt_host : var sur (codes "PV_MQTT_HOST") ≡ some c.mqtt_host
  pub mqtt_port : IsNumber u16_max (var sur (codes "PV_MQTT_PORT")) 1_883 c.mqtt_port
  pub matter_port :
      IsNumber u16_max (var sur (codes "PV_MATTER_PORT")) sur.matter_port c.matter_port
  pub mqtt_username : c.mqtt_username ≡ var sur (codes "PV_MQTT_USERNAME")
  pub mqtt_password : c.mqtt_password ≡ var sur (codes "PV_MQTT_PASSWORD")
  pub topic_prefix :
      c.topic_prefix ≡ get_or (var sur (codes "PV_MQTT_TOPIC_PREFIX")) (codes "pv-inverter")
  pub device_id : c.device_id ≡ var sur (codes "PV_DEVICE_ID")
  pub storage_path : IsStorage (var sur (codes "PV_STORAGE_PATH")) sur.home c.storage_path
  pub bootstrap_timeout :
      IsNumber u64_max (var sur (codes "PV_BOOTSTRAP_TIMEOUT")) 30 c.bootstrap_timeout

number_or_iff :
    (max : ℕ) (v : Option Text) (default n : ℕ) (e : ConfigError)
    → (number_or max v default e ≡ ok n) ↔ IsNumber max v default n
number_or_iff max none default n e = ground arith
number_or_iff max (some v) default n e = ground (arith, parse_unsigned_iff max v n)

storage_or_iff :
    (v home : Option Text) (path : Text) → (storage_or v home ≡ ok path) ↔ IsStorage v home path
storage_or_iff (some p) home path = ground arith
storage_or_iff none none path = (λ h. absurd (cc), λ (h, e, f). absurd (cc))
storage_or_iff none (some h) path = (λ e. (h, refl, ground arith), λ (g, e, f). ground arith)

-- A read that went well had a first step that did.
>>=-eq-ok :
    {Value Next : Type 0} (first : Result Value ConfigError)
    (rest : Value → Result Next ConfigError) {c : Next}
    → (first >>= rest) ≡ ok c
    → (v : Value) × (first ≡ ok v) × (rest v ≡ ok c)
>>=-eq-ok (ok v) rest done = (v, refl, done)
>>=-eq-ok (err e) rest done = absurd (cc)

require-eq-ok :
    {A : Type 0} (o : Option A) (e : ConfigError) {a : A} → require o e ≡ ok a → o ≡ some a
require-eq-ok none e h = cc
require-eq-ok (some a) e h = ground arith

from_env_sound : (sur : Surroundings) (c : Config) → from_env sur ≡ ok c → IsConfig sur c
unfolding from_env
from_env_sound sur c h =
    let (mqtt_host, h1, k1) =
      >>=-eq-ok (require (var sur (codes "PV_MQTT_HOST")) host_required) _ h in
    let (mqtt_port, h2, k2) =
      >>=-eq-ok (number_or u16_max (var sur (codes "PV_MQTT_PORT")) 1_883 mqtt_port_invalid) _ k1 in
    let (matter_port, h3, k3) =
      >>=-eq-ok
        (number_or u16_max (var sur (codes "PV_MATTER_PORT")) sur.matter_port matter_port_invalid) _
        k2 in
    let (path, h4, k4) = >>=-eq-ok (storage_or (var sur (codes "PV_STORAGE_PATH")) sur.home) _ k3 in
    let (timeout, h5, k5) =
      >>=-eq-ok (number_or u64_max (var sur (codes "PV_BOOTSTRAP_TIMEOUT")) 30 timeout_invalid) _
        k4 in
    let same : c ≡ record {
      mqtt_host = mqtt_host;
      mqtt_port = mqtt_port;
      matter_port = matter_port;
      mqtt_username = var sur (codes "PV_MQTT_USERNAME");
      mqtt_password = var sur (codes "PV_MQTT_PASSWORD");
      topic_prefix = get_or (var sur (codes "PV_MQTT_TOPIC_PREFIX")) (codes "pv-inverter");
      device_id = var sur (codes "PV_DEVICE_ID");
      storage_path = path;
      bootstrap_timeout = timeout;
    } =
      cc in
    rw same (record {
      mqtt_host = require-eq-ok _ host_required h1;
      mqtt_port = (number_or_iff _ _ _ _ _).0 h2;
      matter_port = (number_or_iff _ _ _ _ _).0 h3;
      mqtt_username = refl;
      mqtt_password = refl;
      topic_prefix = refl;
      device_id = refl;
      storage_path = (storage_or_iff _ _ _).0 h4;
      bootstrap_timeout = (number_or_iff _ _ _ _ _).0 h5;
    })

from_env_complete : (sur : Surroundings) (c : Config) → IsConfig sur c → from_env sur ≡ ok c
unfolding from_env
from_env_complete sur c i =
    rw
      (
        i.mqtt_host,
        (number_or_iff _ _ _ _ mqtt_port_invalid).1 i.mqtt_port,
        (number_or_iff _ _ _ _ matter_port_invalid).1 i.matter_port,
        (storage_or_iff _ _ _).1 i.storage_path,
        (number_or_iff _ _ _ _ timeout_invalid).1 i.bootstrap_timeout,
      )
      (ground (arith, i.mqtt_username, i.mqtt_password, i.topic_prefix, i.device_id))

-- A configuration is returned exactly if the host is set, the two ports and the timeout are unset or spell
-- numbers that fit, and the storage path or a home directory is there; every field is then the variable's
-- value or its default.
pub from_env-eq-ok_iff : (sur : Surroundings) (c : Config) → (from_env sur ≡ ok c) ↔ IsConfig sur c
from_env-eq-ok_iff sur c = (from_env_sound sur c, from_env_complete sur c)

-- The variable is unset, or spells a number that fits.
abbrev pub IsGoodNumber : ℕ → Option Text → Type 0
IsGoodNumber max none = Unit
IsGoodNumber max (some v) = (n : ℕ) × IsNumeral v n × (n ≤ max)

-- What the error says is wrong, and that what is read before it is right.
abbrev pub IsFirstError : Surroundings → ConfigError → Type 0
IsFirstError sur host_required = var sur (codes "PV_MQTT_HOST") ≡ none
IsFirstError sur mqtt_port_invalid =
    (is_some (var sur (codes "PV_MQTT_HOST")) ≡ true)
    × IsBadNumber u16_max (var sur (codes "PV_MQTT_PORT"))
IsFirstError sur matter_port_invalid =
    (is_some (var sur (codes "PV_MQTT_HOST")) ≡ true)
    × IsGoodNumber u16_max (var sur (codes "PV_MQTT_PORT"))
    × IsBadNumber u16_max (var sur (codes "PV_MATTER_PORT"))
IsFirstError sur no_home =
    (is_some (var sur (codes "PV_MQTT_HOST")) ≡ true)
    × IsGoodNumber u16_max (var sur (codes "PV_MQTT_PORT"))
    × IsGoodNumber u16_max (var sur (codes "PV_MATTER_PORT"))
    × (var sur (codes "PV_STORAGE_PATH") ≡ none)
    × (sur.home ≡ none)
IsFirstError sur timeout_invalid =
    (is_some (var sur (codes "PV_MQTT_HOST")) ≡ true)
    × IsGoodNumber u16_max (var sur (codes "PV_MQTT_PORT"))
    × IsGoodNumber u16_max (var sur (codes "PV_MATTER_PORT"))
    × ((is_some (var sur (codes "PV_STORAGE_PATH")) ≡ true) ⊎ (is_some sur.home ≡ true))
    × IsBadNumber u64_max (var sur (codes "PV_BOOTSTRAP_TIMEOUT"))

number_or_cases :
    (max : ℕ) (v : Option Text) (default : ℕ) (e : ConfigError)
    → ((n : ℕ) × (number_or max v default e ≡ ok n) × IsGoodNumber max v)
      ⊎ ((number_or max v default e ≡ err e) × IsBadNumber max v)
number_or_cases max none default e = inl (default, refl, tt)
number_or_cases max (some v) default e = elim (Option-cases (parse_unsigned max v)) [
  | inl bad ↦ inr (rw bad refl, λ n h. ground (arith, (parse_unsigned_iff max v n).1 h))
  | inr (n, good) ↦
      let (numeral, fits) = (parse_unsigned_iff max v n).0 good in
      inl (n, rw good refl, (n, numeral, fits))
]

storage_or_cases :
    (v home : Option Text)
    → ((path : Text) × (storage_or v home ≡ ok path) × ((is_some v ≡ true) ⊎ (is_some home ≡ true)))
      ⊎ ((storage_or v home ≡ err no_home) × (v ≡ none) × (home ≡ none))
storage_or_cases (some p) home = inl (p, refl, inl refl)
storage_or_cases none (some h) = inl (_, refl, inr refl)
storage_or_cases none none = inr (refl, refl, refl)

not_both : {A : Type 0} {a : A} {e : ConfigError} → ok a ≡ err e → ⊥
not_both h = cc

first_error :
    (sur : Surroundings) (e e' : ConfigError)
    → from_env sur ≡ err e
    → from_env sur ≡ err e'
    → IsFirstError sur e
    → IsFirstError sur e'
first_error sur e e' p q h = let same : e ≡ e' = cc in rw same at h

-- An error names the first thing that is wrong, in the order host, MQTT port, Matter port, storage path,
-- timeout: it is wrong, and all that comes before it is right.
pub from_env-IsFirstError :
    (sur : Surroundings) (e : ConfigError) → from_env sur ≡ err e → IsFirstError sur e
unfolding from_env
from_env-IsFirstError sur e failed = elim (Option-cases (var sur (codes "PV_MQTT_HOST"))) [
  | inl unset ↦ first_error sur host_required e (rw unset refl) failed unset
  | inr (host, h1) ↦
      elim (number_or_cases u16_max (var sur (codes "PV_MQTT_PORT")) 1_883 mqtt_port_invalid) [
        | inr (h2, bad) ↦
            first_error sur mqtt_port_invalid e (rw (h1, h2) refl) failed (rw h1 refl, bad)
        | inl (mqtt_port, h2, good2) ↦
            elim (number_or_cases u16_max (var sur (codes "PV_MATTER_PORT")) sur.matter_port
              matter_port_invalid) [
                | inr (h3, bad) ↦
                    first_error sur matter_port_invalid e (rw (h1, h2, h3) refl) failed
                      (rw h1 refl, good2, bad)
                | inl (matter_port, h3, good3) ↦
                    elim (storage_or_cases (var sur (codes "PV_STORAGE_PATH")) sur.home) [
                      | inr (h4, unset, homeless) ↦
                          first_error sur no_home e (rw (h1, h2, h3, h4) refl) failed
                            (rw h1 refl, good2, good3, unset, homeless)
                      | inl (path, h4, there) ↦
                          elim (number_or_cases u64_max (var sur (codes "PV_BOOTSTRAP_TIMEOUT")) 30
                            timeout_invalid) [
                              | inr (h5, bad) ↦
                                  first_error sur timeout_invalid e (rw (h1, h2, h3, h4, h5) refl)
                                    failed (rw h1 refl, good2, good3, there, bad)
                              | inl (timeout, h5, good5) ↦
                                  absurd (not_both (rw (h1, h2, h3, h4, h5) at failed))
                            ]
                    ]
              ]
      ]
]
