-- ===== src/Api/Tokens.antt =====
-- api/tokens.py: `TokenIssuer`. Signing is the work of the LiveKit package, so `sign` is a parameter:
-- it turns what a token says, with the key and the secret, into the text of the token.
use lad_translate.Common.Dict
use lad_translate.Common.Dict.{Dict, text_key}
use lad_translate.Common.Text.{Text, codes}
use lad_translate.Config.{SessionConfig}
use lad_translate.Common.{
  ◌==◌, if◌then◌else◌, length, ℕ, ◌*◌, Bool, true, false, Option, none, some, List, [], ◌∷◌, ◌++◌,
}

abbrev pub default_ttl_s : ℕ
default_ttl_s = 6 * 60 * 60

-- `VideoGrants`; `none` is an argument that is left to the package's default.
pub record VideoGrants : Type 0 where
  pub room_join : Bool
  pub room : Text
  pub can_subscribe : Bool
  pub can_publish : Bool
  pub can_publish_data : Bool
  pub hidden : Option Bool

-- What the calls on an `AccessToken` put into it.
pub record Claims : Type 0 where
  pub api_key : Text
  pub api_secret : Text
  pub identity : Text
  pub name : Text
  pub attributes : Dict Text Text
  pub grants : VideoGrants
  pub ttl_s : ℕ

pub record ListenerToken : Type 0 where
  pub token : Text
  pub room : Text
  pub language : Text
  pub listener_id : Text
  pub url : Text

pub record TokenIssuer : Type 0 where
  pub livekit_url : Text
  pub internal_url : Text
  pub api_key : Text
  pub api_secret : Text
  pub ttl_s : ℕ

-- A RuntimeError names what is missing.
pub data Issuing : Type 0 where
  issuer : TokenIssuer → Issuing
  missing : List Text → Issuing

-- `a or b` on optional texts, and the text that is left, empty for None.
abbrev pub or_text : Option Text → Option Text → Option Text
or_text none b = b
or_text (some []) b = b
or_text (some (c ∷ s)) b = some (c ∷ s)

abbrev pub text_or_empty : Option Text → Text
text_or_empty none = []
text_or_empty (some s) = s

-- `[name for name, value in ... if not value]`
unfoldable pub missing_names : List (Text × Text) → List Text
missing_names [] = []
missing_names ((name, value) ∷ rest) =
    let others = missing_names rest in if length value == 0 then name ∷ others else others

-- The error names the missing settings, if there are any.
abbrev pub issued : TokenIssuer → List Text → Issuing
issued i [] = issuer i
issued i (name ∷ names) = missing (name ∷ names)

-- The arguments of the constructor, and the environment.
unfoldable pub new_issuer :
    Option Text → Option Text → Option Text → ℕ → Option Text → Dict Text Text → Issuing
unfolding missing_names Dict.lookup
new_issuer livekit_url api_key api_secret ttl_s internal_url env =
    let getenv : Text → Option Text = λ name. Dict.lookup name env in
    let url : Option Text = or_text livekit_url (getenv (codes "LIVEKIT_URL")) in
    let internal : Option Text =
      or_text (or_text internal_url (getenv (codes "LIVEKIT_INTERNAL_URL"))) url in
    let key : Text = text_or_empty (or_text api_key (getenv (codes "LIVEKIT_API_KEY"))) in
    let secret : Text = text_or_empty (or_text api_secret (getenv (codes "LIVEKIT_API_SECRET"))) in
    issued
      (record {
        livekit_url = text_or_empty url;
        internal_url = text_or_empty internal;
        api_key = key;
        api_secret = secret;
        ttl_s = ttl_s;
      })
      (missing_names (
        (codes "LIVEKIT_URL", text_or_empty url)
        ∷ (codes "LIVEKIT_API_KEY", key)
        ∷ (codes "LIVEKIT_API_SECRET", secret)
        ∷ []))

module _ (sign : Claims → Text) (i : TokenIssuer) where
  unfoldable pub listener_claims : Text → Text → Text → Claims
  listener_claims room language listener_id = record {
    api_key = i.api_key;
    api_secret = i.api_secret;
    identity = codes "listener-" ++ listener_id;
    name = codes "listener (" ++ (language ++ codes ")");
    attributes = (codes "language", language) ∷ [];
    grants = record {
      room_join = true;
      room = room;
      can_subscribe = true;
      can_publish = false;
      can_publish_data = false;
      hidden = some true;
    };
    ttl_s = i.ttl_s;
  }

  unfoldable pub for_listener : Text → Text → Text → ListenerToken
  unfolding listener_claims
  for_listener room language listener_id = record {
    token = sign (listener_claims room language listener_id);
    room = room;
    language = language;
    listener_id = listener_id;
    url = i.livekit_url;
  }

  unfoldable pub for_translator : SessionConfig → Text
  for_translator config = sign (record {
    api_key = i.api_key;
    api_secret = i.api_secret;
    identity = codes "translator-" ++ config.session_id;
    name = codes "LAD Translate (" ++ (config.event_name ++ codes ")");
    attributes = [];
    grants = record {
      room_join = true;
      room = config.room_name;
      can_subscribe = true;
      can_publish = true;
      can_publish_data = false;
      hidden = none;
    };
    ttl_s = i.ttl_s;
  })

  unfoldable pub publisher_claims : Text → Text → Claims
  publisher_claims room identity = record {
    api_key = i.api_key;
    api_secret = i.api_secret;
    identity = identity;
    name = codes "Venue publisher";
    attributes = [];
    grants = record {
      room_join = true;
      room = room;
      can_subscribe = false;
      can_publish = true;
      can_publish_data = false;
      hidden = none;
    };
    ttl_s = i.ttl_s;
  }

  unfoldable pub for_publisher : Text → Text → Text
  unfolding publisher_claims
  for_publisher room identity = sign (publisher_claims room identity)
