-- ===== src/PubSub/CodecExamples.antt =====
-- A codec that reads what its printer writes: an instant between two letters, and a map's texts one
-- after the other.
use wego.PubSub.{Message, Envelope}
use wego.PubSub.Service.Ending.{HasTexts, LuaAgrees}
use wego.Action.{Result, ok, ok_injective}
use wego.Prelude.{
  lookup, ◌≡◌, GoMap, text_key, trim_space, trim_right, trim_left, is_space, ℕ, zero, suc, refl, ap,
  ◌∙◌, false, Option, none, some, List, [], ◌∷◌, Text, is_empty, arith, sym, true, ℤ, pos, negsuc,
}
use wego.PubSub.Decoding.{Codec, parse_headers}
use wego.PubSub.Publishing.{Printer, itoa}
use wego.PubSub.Publishing.RoundTrip.{Agrees}
use wego.PubSub.Promotion.{Lua}

-- A map's texts, each before a 0, with their codes raised by one.
pub write_text : Text → Text → Text
write_text [] rest = 0 ∷ rest
write_text (c ∷ s) rest = suc c ∷ write_text s rest

pub write_map : GoMap Text Text → Text
write_map [] = 65 ∷ []
write_map (entry ∷ m) = write_text entry.0 (write_text entry.1 (write_map m))

abbrev pub push : ℕ → List Text → List Text
push c [] = []
push c (s ∷ ss) = (c ∷ s) ∷ ss

pub texts : Text → List Text
texts [] = []
texts (zero ∷ s) = [] ∷ texts s
texts (suc c ∷ s) = push c (texts s)

pub pairs : List Text → GoMap Text Text
pairs [] = []
pairs (k ∷ []) = []
pairs (k ∷ v ∷ ss) = (k, v) ∷ pairs ss

pub texts-write_text : (s rest : Text) → texts (write_text s rest) ≡ s ∷ texts rest
unfolding texts write_text
texts-write_text [] rest = refl
texts-write_text (c ∷ s) rest = ap (push c) (texts-write_text s rest)

pairs-write_map : (m : GoMap Text Text) → pairs (texts (write_map m)) ≡ m
unfolding pairs write_map texts
pairs-write_map [] = refl
pairs-write_map (entry ∷ m) =
    ap pairs (
      texts-write_text entry.0 (write_text entry.1 (write_map m))
      ∙ ap (λ ss. entry.0 ∷ ss) (texts-write_text entry.1 (write_map m)))
    ∙ ap (λ rest. entry ∷ rest) (pairs-write_map m)

-- A text that does not end in white space.
abbrev NoTrail : Text → Type 0
NoTrail s = (is_empty s ≡ false) × (trim_right s ≡ s)

write_text-NoTrail : (s rest : Text) → NoTrail rest → NoTrail (write_text s rest)
unfolding write_text trim_right
write_text-NoTrail [] rest (some_left, h) = (refl, ground (arith, some_left, h))
write_text-NoTrail (c ∷ s) rest h =
    let ih = write_text-NoTrail s rest h in (refl, ground (arith, ih.0, ih.1))

write_map-NoTrail : (m : GoMap Text Text) → NoTrail (write_map m)
unfolding write_map trim_right is_space
write_map-NoTrail [] = (refl, refl)
write_map-NoTrail (entry ∷ m) =
    write_text-NoTrail entry.0 _ (write_text-NoTrail entry.1 _ (write_map-NoTrail m))

abbrev pub after_first : {A : Type 0} → (ℕ → Text → Option A) → Text → Option A
after_first f [] = none
after_first f (c ∷ s) = f c s

-- An instant is written between two letters.
abbrev pub codec : Codec
codec = record {
  parse_time = after_first (λ c s. after_first (λ t s. some t) s);
  unmarshal_headers = after_first (λ c s. some (pairs (texts s)));
}

abbrev pub printer : Printer
printer = record { format_time = λ t. 65 ∷ t ∷ 65 ∷ []; marshal_headers = λ m. 65 ∷ write_map m }

marshal-trim_space : (m : GoMap Text Text) → trim_space (65 ∷ write_map m) ≡ 65 ∷ write_map m
unfolding trim_space trim_left trim_right is_space
marshal-trim_space m = ground (arith, (write_map-NoTrail m).0, (write_map-NoTrail m).1)

parse_headers-marshal : (m : GoMap Text Text) → parse_headers codec (65 ∷ write_map m) ≡ some m
unfolding parse_headers
parse_headers-marshal m = rw (marshal-trim_space m, pairs-write_map m) refl

pub printer-Agrees : Agrees codec printer
unfolding parse_headers trim_space trim_left trim_right is_space
printer-Agrees = record {
  parses = λ t. ground arith;
  read_headers = λ m. m;
  unmarshals = parse_headers-marshal;
  same_headers = λ m k. refl;
}

-- A retry's numbers, and then its key, its type, its data and its headers.
abbrev write_int : ℤ → Text → Text
write_int (pos n) rest = 0 ∷ n ∷ rest
write_int (negsuc n) rest = 1 ∷ n ∷ rest

abbrev read_int : {A : Type 0} → (ℤ → Text → Option A) → Text → Option A
read_int f [] = none
read_int f (c ∷ []) = none
read_int f (zero ∷ n ∷ s) = f (pos n) s
read_int f (suc c ∷ n ∷ s) = f (negsuc n) s

abbrev pub write_retry : Envelope → Result Text Text
write_retry e = ok (
    write_int e.message.max_deliver (
      write_int e.attempt (
        e.published_at
        ∷ write_text e.message.key (
            write_text e.message.message_type
              (write_text e.message.data_bytes (write_map e.message.headers))))))

abbrev from_texts : ℤ → ℤ → ℕ → List Text → Option Envelope
from_texts limit attempt t [] = none
from_texts limit attempt t (k ∷ []) = none
from_texts limit attempt t (k ∷ kind ∷ []) = none
from_texts limit attempt t (k ∷ kind ∷ content ∷ ss) = some (record {
  topic = [];
  group = [];
  message = record {
    key = k;
    message_type = kind;
    data_bytes = content;
    headers = pairs ss;
    max_deliver = limit;
    scheduled_at = 0;
  };
  attempt = attempt;
  published_at = t;
})

abbrev read_retry : Text → Option Envelope
read_retry =
    read_int
      (λ limit. read_int (λ attempt. after_first (λ t s. from_texts limit attempt t (texts s))))

read_int-write_int :
    {A : Type 0} (f : ℤ → Text → Option A) (n : ℤ) (s : Text) → read_int f (write_int n s) ≡ f n s
read_int-write_int f (pos n) s = refl
read_int-write_int f (negsuc n) s = refl

texts-write_retry :
    (a b c : Text) (m : GoMap Text Text)
    → texts (write_text a (write_text b (write_text c (write_map m))))
      ≡ a ∷ b ∷ c ∷ texts (write_map m)
texts-write_retry a b c m =
    texts-write_text a _
    ∙ ap (λ ss. a ∷ ss) (texts-write_text b _ ∙ ap (λ ss. b ∷ ss) (texts-write_text c _))

abbrev pub lua : Lua
lua = record { printer = printer; number = itoa; decode = read_retry }

-- What is read of a retry that was written.
abbrev reread : Envelope → Envelope
reread e = record {
  topic = [];
  group = [];
  message = record e.message {
    headers = pairs (texts (write_map e.message.headers));
    scheduled_at = 0;
  };
  attempt = e.attempt;
  published_at = e.published_at;
}

read_retry-write_retry :
    (e : Envelope) (payload : Text)
    → write_retry e ≡ ok payload
    → read_retry payload ≡ some (reread e)
read_retry-write_retry e payload h =
    ap read_retry (sym (ok_injective h))
    ∙ read_int-write_int
        (λ limit. read_int (λ attempt. after_first (λ t s. from_texts limit attempt t (texts s))))
        e.message.max_deliver _
    ∙ read_int-write_int
        (λ attempt. after_first (λ t s. from_texts e.message.max_deliver attempt t (texts s)))
        e.attempt
        (e.published_at
          ∷ write_text e.message.key (
              write_text e.message.message_type
                (write_text e.message.data_bytes (write_map e.message.headers))))
    ∙ ap (from_texts e.message.max_deliver e.attempt e.published_at) (
        texts-write_retry e.message.key e.message.message_type e.message.data_bytes
          e.message.headers)

pub lua-LuaAgrees : LuaAgrees codec lua write_retry
lua-LuaAgrees = record {
  agrees = printer-Agrees;
  numbers = λ n h. refl;
  is_utf8 = λ s. true;
  reads = λ e payload h written. (
    reread e,
    read_retry-write_retry e payload written,
    record {
      key = refl;
      message_type = refl;
      data_bytes = refl;
      headers = λ k. ap (lookup k) (pairs-write_map e.message.headers);
      max_deliver = refl;
      attempt = refl;
    },
  );
}

pub message-HasTexts : (m : Message) → HasTexts lua-LuaAgrees.is_utf8 m
unfolding lua-LuaAgrees
message-HasTexts m = record {
  key = refl;
  message_type = refl;
  data_bytes = refl;
  headers = λ k v h. (refl, refl);
}
