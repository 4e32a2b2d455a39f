-- ===== src/Wifi/Frames.antt =====
-- What the sniffer passes on, what it leaves open, and when it is of use.
use clink3_wiki.Prelude.{
  ℕ, ◌-◌, ◌≤◌, ◌<◌, ◌≡◌, ◌⊎◌, inl, inr, ap, refl, sym, ◌∙◌, List, [], ◌∷◌, Bool, false, Option,
  none, some, Returns, Bool-cases, Option-cases, ltb, leb, All, take, drop, length, length-drop,
  take-append, drop_prefix, arith,
}
use clink3_wiki.Prelude.Int.{pos}
use clink3_wiki.Prelude.Buffer.{memcpy, memcpy-start, length-memcpy}
use clink3_wiki.Tcp.Outcome.{close_newest}
use clink3_wiki.Wifi.Sniffer.{
  Round, received, rev_num, it_len, frame, with_frame, sniff_loop, SnifferCalls, finish_sniffer,
  func_sniffer, MonitorCall, open_monitor, close_monitor, monitor_call, monitor_calls,
}

-- A packet fits the buffer.
abbrev pub Fits : Round → Type 0
Fits round = (bytes : List ℕ) → round.got ≡ some bytes → length bytes ≤ 8000

-- The frame is what is left of the packet behind some of its bytes, and is not empty.
abbrev pub EndOf : List ℕ → List ℕ → Type 0
EndOf f bytes = (k : ℕ) × (k < length bytes) × (f ≡ drop k bytes)

-- The frame comes from the packet of one of the rounds.
abbrev pub FrameOf : List Round → List ℕ → Type 0
FrameOf [] f = ⊥
FrameOf (round ∷ rounds) f =
    ((bytes : List ℕ) × (round.got ≡ some bytes) × EndOf f bytes) ⊎ FrameOf rounds f

-- The flag is off at one of the rounds.
abbrev pub Stops : List Round → Type 0
Stops [] = ⊥
Stops (round ∷ rounds) = (round.enabled ≡ false) ⊎ Stops rounds

behind_header :
    (k : ℕ) (bytes buf : List ℕ)
    → k ≤ length bytes
    → length bytes ≤ length buf
    → take (length bytes - k) (drop k (memcpy buf 0 bytes)) ≡ drop k bytes
behind_header k bytes buf h fits =
    ap (λ t. take (length bytes - k) (drop k t)) (memcpy-start buf bytes fits)
    ∙ ap (take (length bytes - k)) (drop_prefix k bytes (drop (length bytes) buf) h)
    ∙ take-append (length bytes - k) (drop k bytes) (drop (length bytes) buf)
        (sym (length-drop k bytes))

frame-EndOf :
    (bytes buf : List ℕ) {f : List ℕ}
    → length bytes ≤ length buf
    → frame (pos (length bytes)) (memcpy buf 0 bytes) ≡ some f
    → EndOf f bytes
unfolding frame
frame-EndOf bytes buf {f} fits e =
    let k = it_len (memcpy buf 0 bytes) in
    elim (Bool-cases (leb 8000 k)) [
      | inl long ↦ cc (rw long at e)
      | inr short ↦ elim (Bool-cases (ltb k (length bytes))) [
        | inr outside ↦ cc (rw (short, outside) at e)
        | inl inside ↦
            let within : k < length bytes = ground (arith, inside) in
            let e' : some (take (length bytes - k) (drop k (memcpy buf 0 bytes))) ≡ some f =
              rw (short, inside) at e in
            (k, within, sym (cc e') ∙ behind_header k bytes buf (omega (arith, within)) fits)
      ]
    ]

length-received : (got : Option (List ℕ)) (buf : List ℕ) → length (received got buf) ≡ length buf
length-received none buf = refl
length-received (some bytes) buf = length-memcpy buf 0 bytes

-- Frames of later rounds, and perhaps one of this round
later_frames :
    (round : Round) (rounds : List Round) (frames : List (List ℕ))
    → All (FrameOf rounds) frames
    → All (FrameOf (round ∷ rounds)) frames
later_frames round rounds [] h = tt
later_frames round rounds (f ∷ frames) h = (inr h.0, later_frames round rounds frames h.1)

with_frame-FrameOf :
    (round : Round) (rounds : List Round) (this : Option (List ℕ)) (rest : Option (List (List ℕ)))
    → ((f : List ℕ) → this ≡ some f → FrameOf (round ∷ rounds) f)
    → Returns (All (FrameOf rounds)) rest
    → Returns (All (FrameOf (round ∷ rounds))) (with_frame this rest)
with_frame-FrameOf round rounds this none h r = absurd r
with_frame-FrameOf round rounds none (some frames) h r = later_frames round rounds frames r
with_frame-FrameOf round rounds (some f) (some frames) h r =
    (h f refl, later_frames round rounds frames r)

this_frame :
    (got : Option (List ℕ)) (buf : List ℕ)
    → ((bytes : List ℕ) → got ≡ some bytes → length bytes ≤ length buf)
    → (f : List ℕ) → frame (rev_num got) (received got buf) ≡ some f
    → (bytes : List ℕ) × (got ≡ some bytes) × EndOf f bytes
unfolding frame
this_frame none buf fits f e = cc
this_frame (some bytes) buf fits f e = (bytes, refl, frame-EndOf bytes buf (fits bytes refl) e)

pub sniff_loop-FrameOf :
    (rounds : List Round) (buf : List ℕ)
    → length buf ≡ 8000
    → All Fits rounds
    → Stops rounds
    → Returns (All (FrameOf rounds)) (sniff_loop rounds buf)
unfolding sniff_loop
sniff_loop-FrameOf [] buf size fits stops = absurd stops
sniff_loop-FrameOf (round ∷ rounds) buf size fits stops = elim (Bool-cases round.enabled) [
  | inr off ↦ rw off tt
  | inl on ↦
      let later : Stops rounds = elim stops [ inl off ↦ absurd (cc) | inr s ↦ s ] in
      rw on (
        with_frame-FrameOf round rounds (frame (rev_num round.got) (received round.got buf))
          (sniff_loop rounds (received round.got buf))
          (λ f e.
            inl (this_frame round.got buf (λ bytes g. omega (arith, fits.0 bytes g, size)) f e))
          (sniff_loop-FrameOf rounds (received round.got buf) (length-received round.got buf ∙ size)
            fits.1 later))
]

abbrev pub Sniffed : List Round → List ℕ → List (List ℕ) × List ℕ → Type 0
Sniffed rounds fds r = All (FrameOf rounds) r.0 × (r.1 ≡ fds)

pub finish_sniffer-Sniffed :
    (fd : ℕ) (rounds : List Round) (fds : List ℕ) (o : Option (List (List ℕ)))
    → Returns (All (FrameOf rounds)) o
    → Returns (Sniffed rounds fds) (finish_sniffer fd fds o)
finish_sniffer-Sniffed fd rounds fds none h = h
finish_sniffer-Sniffed fd rounds fds (some frames) h = (h, close_newest fd fds)

-- Once the flag is off at one of its rounds `func_Sniffer` ends, and it closes its socket on every
-- path: the open descriptors are as before. Each frame that it passes on is the end of a packet that
-- was received, is not empty, and lies within the received bytes, whatever length the radiotap
-- header claims.
pub func_sniffer-FrameOf :
    (calls : SnifferCalls) (ifname : List ℕ) (rounds : List Round) (buf fds : List ℕ)
    → length buf ≡ 8000
    → All Fits rounds
    → Stops rounds
    → Returns
        (λ r. All (FrameOf rounds) r.0 × (r.1 ≡ fds))
        (func_sniffer calls ifname rounds buf fds)
unfolding func_sniffer
func_sniffer-FrameOf calls ifname rounds buf fds size fits stops =
    elim (Bool-cases (ltb 15 (length ifname))) [
      | inl long ↦ rw long (tt, refl)
      | inr short ↦ elim (Option-cases calls.socket) [
        | inl none_made ↦ rw (short, none_made) (tt, refl)
        | inr (fd, made) ↦
            rw (short, made)
              (elim (Bool-cases calls.gets_index) [
                | inr e ↦ rw e (tt, close_newest fd fds)
                | inl e ↦ rw e (elim (Bool-cases calls.binds) [
                  | inr e ↦ rw e (tt, close_newest fd fds)
                  | inl e ↦ rw e (elim (Bool-cases calls.gets_flags) [
                    | inr e ↦ rw e (tt, close_newest fd fds)
                    | inl e ↦ rw e (elim (Bool-cases calls.sets_flags) [
                      | inr e ↦ rw e (tt, close_newest fd fds)
                      | inl e ↦ rw e (
                          finish_sniffer-Sniffed fd rounds fds (sniff_loop rounds buf)
                            (sniff_loop-FrameOf rounds buf size fits stops))
                    ])
                  ])
                ])
              ])
      ]
    ]

monitor_calls_off :
    (ifname : List ℕ) (calls : List MonitorCall) → monitor_calls ifname calls false ≡ false
unfolding monitor_calls monitor_call
monitor_calls_off ifname [] = refl
monitor_calls_off ifname (open_monitor ∷ calls) = monitor_calls_off ifname calls
monitor_calls_off ifname (close_monitor ∷ calls) = monitor_calls_off ifname calls

-- Nothing switches the sniffer on again: after a call that closes the monitor the flag stays off,
-- whatever calls follow, and a thread that a later call starts passes on no frame.
pub close_monitor-sniff_loop :
    (ifname : List ℕ) (calls : List MonitorCall) (enabled : Bool) (rounds : List Round)
    (round : Round) (buf : List ℕ)
    → round.enabled ≡ monitor_calls ifname (close_monitor ∷ calls) enabled
    → sniff_loop (round ∷ rounds) buf ≡ some []
unfolding sniff_loop monitor_calls monitor_call
close_monitor-sniff_loop ifname calls enabled rounds round buf e =
    let off : round.enabled ≡ false = e ∙ monitor_calls_off ifname calls in rw off refl
