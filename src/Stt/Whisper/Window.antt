-- ===== src/Stt/Whisper/Window.antt =====
-- How long the window of adapters/stt_whisper.py gets, the segments that it keeps, and when it warns.
use lad_translate.Stt.Whisper.{
  Options, Pass, Ear, WhisperStt, is_empty, window_s, track_silence, note_pass_cost,
  transcribe_buffer, hypothesis, hear, is_quiet, is_overlong, lock, on_text, pass_or_wait, on_frame,
  keep_segments, is_hallucination, transcribe, finish, last_text, emitted,
}
use lad_translate.Adapters.Events.{AudioFrame, Hypothesis}
use lad_translate.Common.Text.{Text, join, strip}
use lad_translate.Common.{
  ltb, leb, ◌==◌, if◌then◌else◌, leb-false→lt, lt→leb-false, Bool-cases, length, All, ℕ, ◌+◌, ◌≤◌,
  ◌<◌, ◌≡◌, refl, sym, ap, ◌∙◌, subst, ◌⊎◌, inl, inr, Bool, true, false, not, ◌&&◌, ◌||◌, Option,
  none, List, [], ◌∷◌, ◌++◌, append_assoc, append-nil, arith,
}

-- A segment that the model took for speech and was sure of is kept whatever its words are, unless it
-- is blank; one that it took for silence and was not sure of is dropped whatever its words are.
pub is_hallucination-doubt :
    (lower : Text → Text) (text : Text) (no_speech_prob doubt : ℕ)
    → (no_speech_prob ≤ 500
        → doubt ≤ 700
        → is_hallucination lower text no_speech_prob doubt ≡ (length (lower (strip text)) == 0))
      × (800 < no_speech_prob
          → 500 < doubt
          → is_hallucination lower text no_speech_prob doubt ≡ true)
unfolding is_hallucination
is_hallucination-doubt lower text no_speech_prob doubt =
    (λ a b. ground (arith, a, b), λ a b. ground (arith, a, b))

module _ {ℓ} {A : Type ℓ} (o : Options) (ear : Ear A) where
  buffer_kept :
      (pass : Pass) (s : WhisperStt A) → (transcribe_buffer o ear pass s).1.buffer ≡ s.buffer
  unfolding transcribe_buffer note_pass_cost
  buffer_kept pass s = ground arith

  hear_buffer :
      (f : AudioFrame) (s : WhisperStt A) → (hear o ear f s).buffer ≡ s.buffer ++ ear.resample f
  unfolding hear track_silence
  hear_buffer f s = elim (Bool-cases (is_empty (ear.resample f))) [
    | inl e ↦ rw e refl
    | inr e ↦ rw e refl
  ]

  -- The window is under its cap after a step, or the step hands nothing on and keeps all it has.
  data Window (s u : WhisperStt A) (out : Option Hypothesis) : Type ℓ where
    capped : window_s o ear u.buffer < o.max_window_s → Window s u out
    unheard : out ≡ none → u.buffer ≡ s.buffer → Window s u out

  on_text-Window :
      (text : Text) (quiet overlong : Bool) (now : ℕ) (s : WhisperStt A)
      → 0 < o.max_window_s
      → leb o.max_window_s (window_s o ear s.buffer) ≡ overlong
      → let out = on_text o ear text quiet overlong now s in Window s out.1 out.0
  unfolding on_text hypothesis lock
  on_text-Window text quiet overlong now s pos long =
      elim (Bool-cases (is_empty text && not quiet)) [
        | inl e ↦ rw e (unheard refl refl)
        | inr e ↦ elim (Bool-cases (quiet || overlong)) [
          | inl f ↦ rw (e, f) (capped pos)
          | inr f ↦ rw (e, f) (capped (leb-false→lt _ _ (long ∙ ground (arith, f))))
        ]
      ]

  Window-from :
      (s s' u : WhisperStt A) (out : Option Hypothesis)
      → s'.buffer ≡ s.buffer
      → Window s' u out
      → Window s u out
  Window-from s s' u out k (capped l) = capped l
  Window-from s s' u out k (unheard e f) = unheard e (f ∙ k)

  pass-Window :
      (f : AudioFrame) (pass : Pass) (s : WhisperStt A)
      → 0 < o.max_window_s
      → let out = pass_or_wait o ear f pass s in Window s out.1 out.0
  unfolding pass_or_wait is_overlong
  pass-Window f pass s pos =
      let ready : WhisperStt A = record s { next_emit = f.t_wall + o.emit_interval } in
      let heard = transcribe_buffer o ear pass ready in
      let k = buffer_kept pass ready in
      let long = is_overlong o ear s in
      elim (Bool-cases (ltb f.t_wall s.next_emit && (not (is_quiet o ear s) && not long))) [
        | inl e ↦ rw e (capped (leb-false→lt _ _ (ground (arith, e))))
        | inr e ↦ rw e (
            Window-from s heard.1 _ _ k (
              on_text-Window heard.0 (is_quiet o ear s) long pass.now heard.1 pos
                (ap (λ b. leb o.max_window_s (window_s o ear b)) k)))
      ]

  -- After a frame the window is shorter than its cap, if that is positive, or the frame handed
  -- nothing on and the window holds all that it held with the frame's audio behind it.
  pub on_frame-window :
      (f : AudioFrame) (pass : Pass) (s : WhisperStt A)
      → 0 < o.max_window_s
      → let out = on_frame o ear f pass s in
        (window_s o ear out.1.buffer < o.max_window_s)
        ⊎ ((out.0 ≡ none) × (out.1.buffer ≡ s.buffer ++ ear.resample f))
  unfolding on_frame
  on_frame-window f pass s pos = by_window (pass-Window f pass (hear o ear f s) pos)
    where
      by_window :
          let out = pass_or_wait o ear f pass (hear o ear f s) in
          Window (hear o ear f s) out.1 out.0
          → (window_s o ear out.1.buffer < o.max_window_s)
            ⊎ ((out.0 ≡ none) × (out.1.buffer ≡ s.buffer ++ ear.resample f))
      by_window (capped l) = inl l
      by_window (unheard e b) = inr (e, b ∙ hear_buffer f s)

  -- A pass in which the model hears nothing has no text.
  no_text :
      (pass : Pass) (s : WhisperStt A)
      → pass.segments ≡ []
      → (transcribe_buffer o ear pass s).0 ≡ []
  unfolding transcribe_buffer keep_segments strip join
  no_text pass s e = elim (Bool-cases (is_empty s.buffer)) [
    | inl f ↦ rw f refl
    | inr f ↦ elim (Bool-cases (ltb (ear.rms s.buffer) o.speech_rms)) [
      | inl g ↦ rw (f, g) refl
      | inr g ↦ rw (f, g, e) refl
    ]
  ]

  -- A frame that is not silent, in which the model hears nothing.
  abbrev pub IsNoise : AudioFrame × Pass → Type 0
  IsNoise e =
      (e.1.segments ≡ [])
      × (is_empty (ear.resample e.0) ≡ false)
      × (ltb (ear.rms (ear.resample e.0)) o.silence_rms ≡ false)

  not_quiet :
      (f : AudioFrame) (pass : Pass) (s : WhisperStt A)
      → IsNoise (f, pass)
      → 0 < o.silence_duration_s
      → is_quiet o ear (hear o ear f s) ≡ false
  unfolding is_quiet hear track_silence
  not_quiet f pass s noise pos = rw (noise.1, noise.2) (lt→leb-false _ _ pos)

  unheard_pass :
      (f : AudioFrame) (pass : Pass) (s : WhisperStt A)
      → pass.segments ≡ []
      → is_quiet o ear s ≡ false
      → let out = pass_or_wait o ear f pass s in (out.0 ≡ none) × (out.1.buffer ≡ s.buffer)
  unfolding pass_or_wait on_text
  unheard_pass f pass s silent loud =
      let ready : WhisperStt A = record s { next_emit = f.t_wall + o.emit_interval } in
      elim (Bool-cases
        (ltb f.t_wall s.next_emit && (not (is_quiet o ear s) && not (is_overlong o ear s)))) [
          | inl e ↦ rw e (refl, refl)
          | inr e ↦ rw (e, no_text pass ready silent, loud) (refl, buffer_kept pass ready)
        ]

  unheard_end :
      (last : Pass) (s : WhisperStt A)
      → last.segments ≡ []
      → let out = finish o ear last s in (out.0 ≡ none) × (out.1.buffer ≡ s.buffer)
  unfolding finish last_text
  unheard_end last s silent = elim (Bool-cases (is_empty s.buffer)) [
    | inl e ↦ rw e (refl, refl)
    | inr e ↦
        subst
          (λ b.
            let out =
              (if b
                then (none, s)
                else last_text o ear (transcribe_buffer o ear last s).0 last.now
                    (transcribe_buffer o ear last s).1) in
            (out.0 ≡ none) × (out.1.buffer ≡ s.buffer))
          (sym e) (rw (no_text last s silent) (refl, buffer_kept last s))
  ]

  abbrev pub audio_of : List (AudioFrame × Pass) → List A
  audio_of [] = []
  audio_of (e ∷ es) = ear.resample e.0 ++ audio_of es

  -- Where a pause has to last longer than 0 to count as silence, and as long as no frame is empty or
  -- below the level of silence and the model hears nothing in any pass, nothing is handed on and the
  -- window takes in all of the audio, however far past its cap.
  pub noise_grows :
      (events : List (AudioFrame × Pass)) (last : Pass) (s : WhisperStt A)
      → 0 < o.silence_duration_s
      → All IsNoise events
      → last.segments ≡ []
      → let out = transcribe o ear events last s in
        (out.0 ≡ []) × (out.1.buffer ≡ s.buffer ++ audio_of events)
  unfolding transcribe on_frame
  noise_grows [] last s pos noise silent =
      let e = unheard_end last s silent in
      (ap (λ x. emitted o ear x []) e.0, e.1 ∙ sym (append-nil s.buffer))
  noise_grows ((f, pass) ∷ rest) last s pos noise silent =
      let heard = hear o ear f s in
      let step = unheard_pass f pass heard noise.0.0 (not_quiet f pass s noise.0 pos) in
      let later = noise_grows rest last (on_frame o ear f pass s).1 pos noise.1 silent in
      (
        ap (λ x. emitted o ear x (transcribe o ear rest last (on_frame o ear f pass s).1).0) step.0
            ∙ later.0,
        later.1
            ∙ ap (λ x. x ++ audio_of rest) (step.1 ∙ hear_buffer f s)
            ∙ append_assoc s.buffer (ear.resample f) (audio_of rest),
      )
