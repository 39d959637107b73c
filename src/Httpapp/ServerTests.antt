-- ===== src/Httpapp/ServerTests.antt =====
-- Runs of internal/httpapp/server.go and clientKey at concrete inputs.
use gocord.Base.{
  ℕ, ◌+◌, ◌*◌, ◌≤◌, ◌≡◌, refl, true, false, List, [], ◌∷◌, ◌++◌, none, some, arith, replicate,
}
use gocord.Base.Int.{pos}
use gocord.Base.Assoc.{Text, codes, text_eq, lookup}
use gocord.Base64.{encode, encode_char, raw_url_encoding}
use gocord.Text.{
  trim_space, trim_by, trim_left_by, is_space, split, split_from, has_prefix, before_last,
}
use gocord.Rooms.State.{Reader, caller}
use gocord.Rooms.Membership.{join, joined}
use gocord.Httpapp.RateLimit.{allow, spend, one_token, full, second}
use gocord.Httpapp.Budget.{elapsed}
use gocord.Httpapp.Client.{Request, client_key, client_key_lem, split_host_port, cut}
use gocord.Httpapp.Server.{App, created_body, create_room}
use gocord.Httpapp.Creation.{join-create_room}
use gocord.Httpapp.Creations.{Visit, creations, calls_of, creations-le}

abbrev pub direct : Request
direct = record {
  forwarded_for = codes "spoofed, 203.0.113.9";
  forwarded_proto = [];
  remote_addr = codes "[2001:db8::1]:4711";
  tls = false;
  path = codes "/api/rooms";
}

split_host_port_tests :
    (split_host_port (codes "[2001:db8::1]:4711") ≡ some (codes "2001:db8::1"))
    × (split_host_port (codes "192.0.2.1:80") ≡ some (codes "192.0.2.1"))
    × (split_host_port (codes "2001:db8::1") ≡ none)
    × (split_host_port (codes "192.0.2.1") ≡ none)
unfolding split_host_port cut before_last
split_host_port_tests = (refl, refl, refl, refl)

client_key_tests :
    (client_key direct true ≡ codes "203.0.113.9") × (client_key direct false ≡ codes "2001:db8::1")
unfolding client_key trim_space trim_by trim_left_by is_space split split_from has_prefix
    split_host_port cut before_last text_eq
client_key_tests = (refl, refl)

client_key_lem_example :
    (client_key direct true ≡ codes "203.0.113.9")
    × (client_key (record direct { forwarded_for = [] }) false ≡ client_key direct false)
unfolding trim_space trim_by trim_left_by is_space
client_key_lem_example =
    client_key_lem direct (record direct { forwarded_for = [] }) (codes "spoofed")
      (codes " 203.0.113.9") refl refl (λ e. ground arith) refl

abbrev pub hash : Text → Text
hash s = 0 ∷ s

abbrev pub filled : ℕ → Reader
filled b n = some (replicate n b)

abbrev pub app : App
app = record {
  world = record {
    manager = record { rooms = []; ttl = 100; empty_grace = 10; max_rooms = pos 1 };
    heap = record { next = 0; cell = λ _. record { id = []; send = []; buffer = 2; dead = false } };
  };
  create_limit = record { buckets = []; rate = 1; burst = 2; scale = 1 };
  push_limit = record { buckets = []; rate = 1; burst = 2; scale = 1 };
}

abbrev pub invite : Text → Text → Text
invite room secret = room ++ (codes "#" ++ secret)

join-create_room_example :
    let (a', response) = create_room hash invite false direct 5 5 (filled 0) (filled 0) app in
    (id : Text) × (secret : Text) × (url : Text) × (expires : ℕ) × (response.body
      ≡ created_body id secret url expires)
    × ((join hash id secret (codes "a") 7 [] (filled 2) 6 a'.world.manager).1
        ≡ joined caller 1 (encode raw_url_encoding (replicate 18 2)))
unfolding create_room allow spend one_token full lookup encode encode_char
join-create_room_example =
    join-create_room hash invite false direct 5 5 6 (filled 0) (filled 0) (filled 2) app
      (encode raw_url_encoding (replicate 18 2)) (codes "a") 7 [] refl refl (omega arith)

abbrev visits : List Visit
visits =
    record { request = direct; gap = 0; now = 5; read_id = filled 0; read_secret = filled 0 }
    ∷ record { request = direct; gap = second; now = 6; read_id = filled 1; read_secret = filled 0 }
    ∷ []

creations-le_example :
    creations hash invite false (codes "2001:db8::1") visits 5 app * one_token app.create_limit
    ≤ full app.create_limit + elapsed (calls_of hash invite false visits) * app.create_limit.rate
creations-le_example =
    creations-le hash invite false (codes "2001:db8::1") visits 5 app (λ e. omega arith)
      (record { buckets_valid = tt; distinct = tt })
