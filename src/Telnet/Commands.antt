-- ===== src/Telnet/Commands.antt =====
-- The loop over the commands of one read, against a description of what a server sent.
use tls_banner_grab_go.Base.{
  ℕ, zero, suc, ◌+◌, ◌-◌, ◌<◌, ◌≡◌, ◌≢◌, refl, sym, ap, ◌∙◌, List, [], ◌∷◌, ◌++◌, none, some,
  length, get_elem?, take, drop, arith, All, length-append, take-length, append_assoc, append-nil,
}
use tls_banner_grab_go.Base.Int.{ℤ, pos, ◌-ℤ◌, int_laws}
use tls_banner_grab_go.Net.{ok}
use tls_banner_grab_go.Telnet.{
  iac, dont, do_code, wont, will, TelnetLog, Slice, Negotiation, index_byte, byte_at,
  return_option_type, next, handle_command, handle_commands,
}

pub data Verb : Type 0 where
  will_verb do_verb wont_verb dont_verb : Verb

abbrev pub code : Verb → ℕ
code will_verb = will
code do_verb = do_code
code wont_verb = wont
code dont_verb = dont

-- What refuses a command: DONT for an offer or a refusal to do, WONT for a request.
abbrev pub refusal : Verb → ℕ
refusal will_verb = dont
refusal wont_verb = dont
refusal do_verb = wont
refusal dont_verb = wont

-- Bytes with no IAC, and the command behind them.
pub record Segment : Type 0 where
  pub text : List ℕ
  pub verb : Verb
  pub option : ℕ

abbrev pub IsText : List ℕ → Type 0
IsText = All (λ b. b ≢ iac)

abbrev pub HasText : Segment → Type 0
HasText g = IsText g.text

abbrev pub encode : List Segment → List ℕ
encode [] = []
encode (g ∷ gs) = g.text ++ (iac ∷ code g.verb ∷ g.option ∷ encode gs)

abbrev pub replies : List Segment → List ℕ
replies [] = []
replies (g ∷ gs) = iac ∷ refusal g.verb ∷ g.option ∷ replies gs

abbrev add_verb : Verb → ℕ → TelnetLog → TelnetLog
add_verb will_verb o log = record log { will_options = log.will_options ++ (o ∷ []) }
add_verb do_verb o log = record log { do_options = log.do_options ++ (o ∷ []) }
add_verb wont_verb o log = record log { wont_options = log.wont_options ++ (o ∷ []) }
add_verb dont_verb o log = record log { dont_options = log.dont_options ++ (o ∷ []) }

-- The log after the commands, each in the list of its verb.
abbrev pub record_all : List Segment → TelnetLog → TelnetLog
record_all [] log = log
record_all (g ∷ gs) log = record_all gs (add_verb g.verb g.option log)

pub index_byte-IsText : (t : List ℕ) → IsText t → index_byte iac t ≡ none
unfolding index_byte
index_byte-IsText [] h = refl
index_byte-IsText (b ∷ bs) h = ground (arith, index_byte-IsText bs h.1)

pub index_byte-append :
    (t rest : List ℕ) → IsText t → index_byte iac (t ++ (iac ∷ rest)) ≡ some (length t)
unfolding index_byte
index_byte-append [] rest h = refl
index_byte-append (b ∷ bs) rest h = ground (arith, index_byte-append bs rest h.1)

pub get_elem?-append_suc :
    (xs : List ℕ) (y z : ℕ) (ys : List ℕ) → get_elem? (xs ++ (y ∷ z ∷ ys)) (length xs + 1) ≡ some z
unfolding get_elem?
get_elem?-append_suc [] y z ys = refl
get_elem?-append_suc (x ∷ xs) y z ys = ground (arith, get_elem?-append_suc xs y z ys)

pub get_elem?-append_two :
    (xs : List ℕ) (y z w : ℕ) (ys : List ℕ)
    → get_elem? (xs ++ (y ∷ z ∷ w ∷ ys)) (length xs + 2) ≡ some w
unfolding get_elem?
get_elem?-append_two [] y z w ys = refl
get_elem?-append_two (x ∷ xs) y z w ys = ground (arith, get_elem?-append_two xs y z w ys)

pub drop-append_three :
    (xs : List ℕ) (y z w : ℕ) (ys : List ℕ) → drop (length xs + 3) (xs ++ (y ∷ z ∷ w ∷ ys)) ≡ ys
unfolding drop
drop-append_three [] y z w ys = refl
drop-append_three (x ∷ xs) y z w ys = ground (arith, drop-append_three xs y z w ys)

-- The loop's variables where nothing has been cut off the buffer's end.
abbrev pub whole : List ℕ → Slice
whole cells = record { cells = cells; len = length cells }

pub byte_at-whole :
    (cells : List ℕ) (i : ℕ) → i < length cells → byte_at (whole cells) i ≡ get_elem? cells i
unfolding byte_at
byte_at-whole cells i h = ground arith

-- One command: it is recorded, refused, and dropped with the bytes before it.
abbrev after_segment : Segment → List ℕ → Negotiation → Negotiation
after_segment g rest n = record n {
  read_buffer = whole rest;
  num_data_bytes = n.num_data_bytes -ℤ pos (length g.text + 3);
  ret_buffer = n.ret_buffer ++ (iac ∷ refusal g.verb ∷ g.option ∷ []);
  log = add_verb g.verb g.option n.log;
}

abbrev opened : Segment → List ℕ → List ℕ
opened g rest = g.text ++ (iac ∷ code g.verb ∷ g.option ∷ rest)

opened_long :
    (g : Segment) (rest : List ℕ) → length (opened g rest) ≡ length g.text + 3 + length rest
opened_long g rest = omega (arith, length-append g.text (iac ∷ code g.verb ∷ g.option ∷ rest))

-- One iteration, from the bytes that it reads.
handle_command-verb :
    (v : Verb) (option i : ℕ) (rest : List ℕ) (n : Negotiation)
    → byte_at n.read_buffer (i + 1) ≡ some (code v)
    → byte_at n.read_buffer (i + 2) ≡ some option
    → drop (i + 3) n.read_buffer.cells ≡ rest
    → n.read_buffer.len - (i + 3) ≡ length rest
    → handle_command i n ≡ (
      next,
      record n {
        read_buffer = whole rest;
        num_data_bytes = n.num_data_bytes -ℤ pos (i + 3);
        ret_buffer = n.ret_buffer ++ (iac ∷ refusal v ∷ option ∷ []);
        log = add_verb v option n.log;
      },
    )
unfolding handle_command return_option_type
handle_command-verb will_verb option i rest n f1 f2 f3 f4 = ground arith
handle_command-verb do_verb option i rest n f1 f2 f3 f4 = ground arith
handle_command-verb wont_verb option i rest n f1 f2 f3 f4 = ground arith
handle_command-verb dont_verb option i rest n f1 f2 f3 f4 = ground arith

byte_at-opened :
    (g : Segment) (rest : List ℕ)
    → (byte_at (whole (opened g rest)) (length g.text + 1) ≡ some (code g.verb))
      × (byte_at (whole (opened g rest)) (length g.text + 2) ≡ some g.option)
byte_at-opened g rest =
    let long = opened_long g rest in
    (
      byte_at-whole (opened g rest) _ (omega arith)
          ∙ get_elem?-append_suc g.text iac (code g.verb) (g.option ∷ rest),
      byte_at-whole (opened g rest) _ (omega arith)
          ∙ get_elem?-append_two g.text iac (code g.verb) g.option rest,
    )

handle_command-opened :
    (g : Segment) (rest : List ℕ) (n : Negotiation)
    → n.read_buffer ≡ whole (opened g rest)
    → handle_command (length g.text) n ≡ (next, after_segment g rest n)
handle_command-opened g rest n e =
    let (f1, f2) = byte_at-opened g rest in
    handle_command-verb g.verb g.option (length g.text) rest n (rw e f1) (rw e f2)
      (rw e (drop-append_three g.text iac (code g.verb) g.option rest))
      (rw e (omega (arith, opened_long g rest)))

sub_sub : (d : ℤ) (a b c : ℕ) → c ≡ a + b → d -ℤ pos a -ℤ pos b ≡ d -ℤ pos c
sub_sub d a b c h = omega int_laws

abbrev pub after_segments : List Segment → List ℕ → Negotiation → Negotiation
after_segments gs tail n = record n {
  read_buffer = whole tail;
  num_data_bytes = n.num_data_bytes -ℤ pos (length (encode gs));
  ret_buffer = n.ret_buffer ++ replies gs;
  log = record_all gs n.log;
}

sub_zero : (d : ℤ) → d -ℤ pos 0 ≡ d
sub_zero d = omega int_laws

after_segments-nil :
    (tail : List ℕ) (n : Negotiation) → n.read_buffer ≡ whole tail → after_segments [] tail n ≡ n
after_segments-nil tail n e = ground (arith, sub_zero n.num_data_bytes, append-nil n.ret_buffer)

after_segments-cons :
    (g : Segment) (gs : List Segment) (tail : List ℕ) (n : Negotiation)
    → after_segments gs tail (after_segment g (encode gs ++ tail) n)
      ≡ after_segments (g ∷ gs) tail n
after_segments-cons g gs tail n = ground (
  arith,
  sub_sub n.num_data_bytes (length g.text + 3) (length (encode gs)) (length (encode (g ∷ gs))),
  opened_long g (encode gs),
  append_assoc n.ret_buffer (iac ∷ refusal g.verb ∷ g.option ∷ []) (replies gs),
)

-- One round of the loop, from what it looks up.
pub handle_commands_next :
    (fuel i : ℕ) (n n' : Negotiation)
    → index_byte iac (take n.read_buffer.len n.read_buffer.cells) ≡ some i
    → handle_command i n ≡ (next, n')
    → handle_commands (suc fuel) n ≡ handle_commands fuel n'
unfolding handle_commands
handle_commands_next fuel i n n' p q = rw (p, handle_commands, q)

pub handle_commands_done :
    (fuel : ℕ) (n : Negotiation)
    → index_byte iac (take n.read_buffer.len n.read_buffer.cells) ≡ none
    → handle_commands (suc fuel) n ≡ (ok tt, n)
unfolding handle_commands
handle_commands_done fuel n p = rw (p, handle_commands)

pub index_byte-whole :
    (cells : List ℕ) (s : Slice)
    → s ≡ whole cells
    → index_byte iac (take s.len s.cells) ≡ index_byte iac cells
index_byte-whole cells s e = ground (arith, take-length cells)

-- The loop runs through all segments, whatever stands behind them.
pub handle_commands-segments :
    (gs : List Segment) (tail : List ℕ) (fuel k : ℕ) (n : Negotiation)
    → All HasText gs
    → n.read_buffer ≡ whole (encode gs ++ tail)
    → fuel ≡ length gs + k
    → handle_commands fuel n ≡ handle_commands k (after_segments gs tail n)
handle_commands-segments [] tail fuel k n hs e f =
    let same : fuel ≡ k = omega arith in
    ap (λ j. handle_commands j n) same ∙ ap (handle_commands k) (sym (after_segments-nil tail n e))
handle_commands-segments (g ∷ gs) tail zero k n hs e f = absurd (omega arith)
handle_commands-segments (g ∷ gs) tail (suc fuel) k n hs e f =
    let rest : List ℕ = encode gs ++ tail in
    let e' : n.read_buffer ≡ whole (opened g rest) = e ∙ ap whole (append_assoc g.text _ tail) in
    handle_commands_next fuel (length g.text) n (after_segment g rest n)
      (index_byte-whole (opened g rest) n.read_buffer e' ∙ index_byte-append g.text _ hs.0)
      (handle_command-opened g rest n e')
    ∙ handle_commands-segments gs tail fuel k (after_segment g rest n) hs.1 refl (omega arith)
    ∙ ap (handle_commands k) (after_segments-cons g gs tail n)

-- It stops at bytes with no IAC.
pub handle_commands-encode :
    (gs : List Segment) (tail : List ℕ) (fuel : ℕ) (n : Negotiation)
    → All HasText gs
    → IsText tail
    → n.read_buffer ≡ whole (encode gs ++ tail)
    → length gs < fuel
    → handle_commands fuel n ≡ (ok tt, after_segments gs tail n)
handle_commands-encode gs tail fuel n hs ht e hf =
    handle_commands-segments gs tail fuel (suc (fuel - length gs - 1)) n hs e (omega arith)
    ∙ handle_commands_done _ _ (index_byte-whole tail _ refl ∙ index_byte-IsText tail ht)
