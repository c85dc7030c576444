-- ===== src/Roster/Counts.antt =====
-- The number of clients that the roster shows for a channel.
use Prim.Native.Nat.{ℕ, ◌+◌}
use beta.Base.{
  List, [], ◌∷◌, map, Text, Option, length, keep, ◌==◌, nat_equal, ◌≡◌, true, false, refl, ap, ap₂,
  ◌∙◌, arith, ==_iff, inl, inr, Bool-cases,
}
use beta.Base.Map
use beta.Base.Map.{Map}
use beta.Base.Word.{pos, as_u32}
use beta.Roster.{
  Book, BookChannel, BookClient, unwrap_or, count_client, count_clients, channel_of,
  refresh_from_book, MaxClients, max_clients_code, channel_codec_code, channel_type_code,
}
use beta.Events.{TsChannel}

abbrev pub members : (channel : ℕ) → List BookClient → ℕ
members channel clients = length (keep (λ c. c.channel == channel) clients)

count_clients-members :
    (channel n : ℕ) (count : Map ℕ ℕ) (clients : List BookClient)
    → unwrap_or 0 (Map.get channel count) ≡ as_u32 n
    → unwrap_or 0 (Map.get channel (count_clients count clients))
      ≡ as_u32 (n + members channel clients)
unfolding count_clients count_client
count_clients-members channel n count [] h = ground arith
count_clients-members channel n count (c ∷ cs) h =
    let one : ℕ = as_u32 (unwrap_or 0 (Map.get c.channel count) + 1) in
    let written = Map.get-insert c.channel channel one count in
    elim (Bool-cases (c.channel == channel)) [
      | inl here ↦
          rw (here, keep)
            (count_clients-members channel (n + 1) (count_client count c) cs (counted here)
              ∙ ap as_u32 (omega arith))
      | inr elsewhere ↦
          rw (elsewhere, keep)
            (count_clients-members channel n (count_client count c) cs
              (ground (arith, elsewhere, written, h)))
    ]
  where
    counted :
        (c.channel == channel) ≡ true
        → unwrap_or 0 (Map.get channel (count_client count c)) ≡ as_u32 (n + 1)
    counted here =
        let same : c.channel ≡ channel = (==_iff _ _).0 here in
        rw
          (
            Map.get-insert c.channel channel (as_u32 (unwrap_or 0 (Map.get c.channel count) + 1))
                count,
            here,
          )
          (rw same (omega (arith, h)))

-- A channel as the user interface sees it, with the clients of the book that are in it.
abbrev pub shown : List BookClient → BookChannel → TsChannel
shown clients c = record {
  id = as_u32 c.id;
  name = c.name;
  parent_id = as_u32 c.parent;
  topic = unwrap_or [] c.topic;
  has_password = unwrap_or false c.has_password;
  client_count = as_u32 (members c.id clients);
  order = as_u32 c.order;
  needed_talk_power = unwrap_or (pos 0) c.needed_talk_power;
  max_clients = max_clients_code (unwrap_or MaxClients.unlimited c.max_clients);
  codec = channel_codec_code c.codec;
  codec_quality = unwrap_or 0 c.codec_quality;
  channel_type = channel_type_code c.channel_type;
  is_default = unwrap_or false c.is_default;
  is_private = unwrap_or false c.is_private;
  subscribed = c.subscribed;
  icon_id = unwrap_or 0 c.icon;
  is_unencrypted = unwrap_or true c.is_unencrypted;
}

channels_shown :
    (book : Book) (channels : List BookChannel)
    → map (channel_of (count_clients [] book.clients)) channels ≡ map (shown book.clients) channels
unfolding channel_of
channels_shown book [] = refl
channels_shown book (c ∷ cs) =
    ap₂ ◌∷◌
      (ap (λ n. record (shown book.clients c) { client_count = n })
        (count_clients-members c.id 0 [] book.clients refl ∙ ap as_u32 (omega arith)))
      (channels_shown book cs)

-- Whatever the order of the book, the roster has its channels in that order, each with the fields
-- that the book has of it, and shows for each the number of clients that are in it, modulo 2^32.
pub refresh_from_book-channels :
    (now : ℕ) (volumes : Map Text ℕ) (decibels : ℕ → Option ℕ)
    (talking whispering permission_hints : Map ℕ ℕ) (book : Book)
    → (refresh_from_book now volumes decibels talking whispering permission_hints book).0
      ≡ map (shown book.clients) book.channels
unfolding refresh_from_book
refresh_from_book-channels now volumes decibels talking whispering permission_hints book =
    channels_shown book book.channels
