-- ===== src/Adapters/Registry.antt =====
-- adapters/registry.py: the tables of backends, `build_stt`, `build_mt`, `build_tts` and
-- `capabilities`. An adapter that is built is named by its class.
pub mod Credible
use lad_translate.Common.Dict
use lad_translate.Common.Dict.{Dict, text_key}
use lad_translate.Common.Text.{Text, codes, text_eq, member}
use lad_translate.Common.{
  if◌then◌else◌, length, Bool, true, not, ◌&&◌, Option, none, some, List, [], ◌∷◌, ◌++◌,
}

pub record BackendSpec : Type 0 where
  pub name : Text
  pub credible_on : List Text
  pub note : Text

unfoldable pub is_credible : Text → BackendSpec → Bool
is_credible device s = member device s.credible_on

abbrev any_device : List Text
any_device = codes "cpu" ∷ codes "cuda" ∷ []

abbrev gpu_only : List Text
gpu_only = codes "cuda" ∷ []

abbrev never : List Text
never = []

abbrev spec : Text → List Text → Text → Text × BackendSpec
spec name devices note = (name, record { name = name; credible_on = devices; note = note })

unfoldable pub stt_backends : Dict Text BackendSpec
stt_backends =
    spec (codes "faster-whisper") never
      (codes "sliding window, not streaming; about 3.2s at p50 before commit")
    ∷ spec (codes "fastconformer") gpu_only (
        codes "NVIDIA cache-aware streaming transducer, ~114M params. Constant cost "
        ++ (codes "per step at any talk length, which is the property Whisper cannot "
            ++ (codes "have. Lookahead selectable at load: 0/80/480/1040ms, defaulted here "
                ++ (codes "to 480ms rather than NeMo's 1040ms. ENGLISH ONLY -- 'multi' in the "
                    ++ (codes "model name means multiple lookaheads, not multilingual. Adapter "
                        ++ (codes "written, never run: needs CUDA"))))))
    ∷ spec (codes "qwen3-asr") gpu_only (
        codes "Alibaba, Jan 2026. 0.6B/1.7B, 52 languages, unified streaming and "
        ++ (codes "offline with a 1-8s attention window. Adapter written, never run: "
            ++ (codes "vLLM only, so it cannot be exercised without a GPU")))
    ∷ []

unfoldable pub mt_backends : Dict Text BackendSpec
mt_backends =
    spec (codes "opus-mt") any_device
      (codes "CTranslate2 Marian, one model per pair; ~300ms for 4 on CPU")
    ∷ spec (codes "nllb-200") gpu_only (
        codes "200 languages in one model, far better on Indic languages; ~4500ms "
        ++ (codes "for 5 on CPU against ~300ms for Opus-MT, so GPU only"))
    ∷ spec (codes "routing") gpu_only (codes "per language: Indic to NLLB, the rest to Opus-MT")
    ∷ []

unfoldable pub tts_backends : Dict Text BackendSpec
tts_backends =
    spec (codes "piper") any_device (codes "ONNX, streams per sentence, CPU or CUDA")
    ∷ spec (codes "kokoro") gpu_only (codes "better quality; no Intel Mac wheel")
    ∷ spec (codes "chatterbox") gpu_only (
        codes "Resemble AI, MIT. 21 languages, one cloned voice across all of them. "
        ++ (codes "NO streaming API in the open-source model, so a whole phrase renders "
            ++ (codes "before anything is heard. No Telugu or Tamil. Adapter written, never "
                ++ (codes "run"))))
    ∷ []

-- The classes of the adapters.
pub data SttAdapter : Type 0 where
  whisper_stt fast_conformer_stt qwen3_stt : SttAdapter

pub data MtAdapter : Type 0 where
  opus_mt nllb_mt routing_mt : MtAdapter

pub data TtsAdapter : Type 0 where
  piper_tts chatterbox_tts : TtsAdapter

-- KeyError, and NotImplementedError.
pub data Built (A : Type 0) : Type 0 where
  built : A → Built A
  unknown : Built A
  not_written : Built A

unfoldable pub build_stt : Text → Built SttAdapter
build_stt name =
    if text_eq (codes "faster-whisper") name
    then built whisper_stt
    else if text_eq (codes "fastconformer") name
    then built fast_conformer_stt
    else if text_eq (codes "qwen3-asr") name
    then built qwen3_stt
    else unknown

unfoldable pub build_mt : Text → Built MtAdapter
build_mt name =
    if text_eq (codes "opus-mt") name
    then built opus_mt
    else if text_eq (codes "nllb-200") name
    then built nllb_mt
    else if text_eq (codes "routing") name
    then built routing_mt
    else unknown

unfoldable pub build_tts : Text → Built TtsAdapter
build_tts name =
    if text_eq (codes "piper") name
    then built piper_tts
    else if text_eq (codes "kokoro") name
    then not_written
    else if text_eq (codes "chatterbox") name
    then built chatterbox_tts
    else unknown

pub record BackendCapabilities : Type 0 where
  pub stt_name : Text
  pub mt_name : Text
  pub tts_name : Text
  pub stt_emits_interims : Bool
  pub latency_credible : Bool
  pub notes : List Text

-- A KeyError names the backends that no table has.
pub data Report : Type 0 where
  report : BackendCapabilities → Report
  unknown_backends : List Text → Report

abbrev pub unknown_name : Text → Option BackendSpec → List Text → List Text
unknown_name name none names = name ∷ names
unknown_name name (some s) names = names

abbrev pub blocking_name : Text → Text → BackendSpec → List Text → List Text
blocking_name device name s names = if is_credible device s then names else name ∷ names

-- The names of the backends that cannot meet the budget on the device.
unfoldable pub blocking :
    Text → Text → BackendSpec → Text → BackendSpec → Text → BackendSpec → List Text
unfolding is_credible
blocking device stt a mt b tts c =
    blocking_name device stt a (blocking_name device mt b (blocking_name device tts c []))

-- `", ".join(names)`
abbrev pub comma_join : List Text → Text
comma_join [] = []
comma_join (n ∷ []) = n
comma_join (n ∷ (m ∷ ns)) = n ++ (codes ", " ++ comma_join (m ∷ ns))

abbrev pub with_warning : Text → List Text → List Text → List Text
with_warning device [] notes = notes
with_warning device (n ∷ ns) notes =
    notes
    ++ (codes "LATENCY NOT CREDIBLE on "
        ++ (device
            ++ (codes ": "
                ++ (comma_join (n ∷ ns)
                    ++ codes
                        " cannot meet a 2s budget here. Figures are for pipeline validation only."))))
      ∷ []

abbrev pub note_of : Text → BackendSpec → Text
note_of name s = name ++ (codes ": " ++ s.note)

unfoldable pub caps_of :
    Text → Text → Text → Text → BackendSpec → BackendSpec → BackendSpec → BackendCapabilities
unfolding is_credible blocking
caps_of device stt mt tts a b c = record {
  stt_name = stt;
  mt_name = mt;
  tts_name = tts;
  stt_emits_interims = true;
  latency_credible = is_credible device a && (is_credible device b && is_credible device c);
  notes =
      with_warning device (blocking device stt a mt b tts c)
        (note_of stt a ∷ note_of mt b ∷ note_of tts c ∷ []);
}

abbrev pub reported :
    Text
    → Text
    → Text
    → Text
    → Option BackendSpec
    → Option BackendSpec
    → Option BackendSpec
    → Report
reported device stt mt tts (some a) (some b) (some c) = report (caps_of device stt mt tts a b c)
reported device stt mt tts none b c =
    unknown_backends (stt ∷ unknown_name mt b (unknown_name tts c []))
reported device stt mt tts (some a) none c = unknown_backends (mt ∷ unknown_name tts c [])
reported device stt mt tts (some a) (some b) none = unknown_backends (tts ∷ [])

unfoldable pub capabilities : Text → Text → Text → Text → Report
unfolding stt_backends mt_backends tts_backends Dict.lookup
capabilities stt mt tts device =
    reported device stt mt tts (Dict.lookup stt stt_backends) (Dict.lookup mt mt_backends)
      (Dict.lookup tts tts_backends)
