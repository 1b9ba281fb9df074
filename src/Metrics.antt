-- ===== src/Metrics.antt =====
-- metrics/metrics.h and metrics/metrics.cpp: the counters and the histograms, and their export as
-- text. The counters are words of 64 bits, changed by one atomic operation each.
pub mod Buckets
use lightnet.Common.{
  ltb, leb, ◌==◌, if◌then◌else◌, ltb→lt, lt→ltb, le→ltb, le→leb, lt→leb, ltb→ge, leb→le, leb→gt,
  ==→eq, ==→ne, eq→==, ==-refl, Bool-cases, Option-cases, some_pair-fst, some_pair-snd, bytes_eq,
  bytes_eq_refl, bytes_eq→eq, ◌>>=◌, ◌>>◌, guard, >>=-eq-some, guard-eq-some, >>=-elim, eq_of_some,
  length, take, drop, replicate, get_or, All, length-append, length-take, length-drop,
  length-replicate, take-append-drop, take_all, drop_all, drop-nil, take-append_le, drop-append_le,
  take-append_ge, drop-append_ge, take_front, drop_front, drop-drop, drop-take, length-map,
  take_first, drop_first, get_or-append, to_signed, to_unsigned, InRange, to_signed-to_unsigned,
  to_unsigned-lt, codes, IsByte, le_bytes, of_le, length-le_bytes, le_bytes-IsByte, of_le-le_bytes,
  ℤ, pos, negsuc, ℕ, zero, suc, ◌+◌, ◌-◌, ◌*◌, ◌/◌, ◌%◌, ◌^◌, ◌≤◌, ◌<◌, min, max, ◌≡◌, refl, sym,
  ap, ◌∙◌, subst, ◌≢◌, ◌↔◌, ◌⊎◌, inl, inr, Bool, true, false, not, ◌&&◌, ◌||◌, Option, none, some,
  List, [], ◌∷◌, ◌++◌, map, append_assoc, append-nil, arith,
}
use lightnet.Http.Text.{to_string}

-- 2 ^ 64.
abbrev pub word : ℕ
word = 18446744073709551616

-- `fetch_add` and `fetch_sub`.
abbrev pub fetch_add : ℕ → ℕ → ℕ
fetch_add counter n = (counter + n) % word

abbrev pub fetch_sub : ℕ → ℕ → ℕ
fetch_sub counter n = (counter + (word - n)) % word

abbrev pub bucket_bounds : List ℕ
bucket_bounds =
    100 ∷ 500 ∷ 1000 ∷ 5000 ∷ 10000 ∷ 50000 ∷ 100000 ∷ 500000 ∷ 1000000 ∷ 5000000 ∷ 10000000
    ∷ 18446744073709551615 ∷ []

pub record Histogram : Type 0 where
  pub buckets : List ℕ
  pub sum : ℕ
  pub count : ℕ

unfoldable pub new_histogram : Histogram
new_histogram = record { buckets = replicate 12 0; sum = 0; count = 0 }

-- The loop of `observe`: the first bucket whose bound is not below the value.
unfoldable pub bump : ℕ → List ℕ → List ℕ → List ℕ
bump value [] buckets = buckets
bump value (b ∷ bs) [] = []
bump value (b ∷ bs) (n ∷ ns) =
    let rest = bump value bs ns in if leb value b then fetch_add n 1 ∷ ns else n ∷ rest

unfoldable pub observe : ℕ → Histogram → Histogram
observe value h = record {
  buckets = bump value bucket_bounds h.buckets;
  sum = fetch_add h.sum value;
  count = fetch_add h.count 1;
}

-- The values of `cumulative` in the loop of `export_to`.
unfoldable pub cumulatives : ℕ → List ℕ → List ℕ
cumulatives acc [] = []
cumulatives acc (n ∷ ns) = fetch_add acc n ∷ cumulatives (fetch_add acc n) ns

abbrev bucket_line : List ℕ → ℕ → ℕ → List ℕ
bucket_line name bound cumulative =
    name
    ++ codes "_bucket{le=\""
    ++ to_string bound
    ++ codes "\"} "
    ++ to_string cumulative
    ++ codes "\n"

unfoldable pub bucket_lines : List ℕ → List ℕ → List ℕ → List ℕ
bucket_lines name [] cs = []
bucket_lines name (b ∷ bs) [] = []
bucket_lines name (b ∷ bs) (c ∷ cs) = bucket_line name b c ++ bucket_lines name bs cs

unfoldable pub export_to : List ℕ → List ℕ → Histogram → List ℕ
export_to out name h =
    out
    ++ codes "# TYPE "
    ++ name
    ++ codes " histogram\n"
    ++ bucket_lines name bucket_bounds (cumulatives 0 h.buckets)
    ++ name
    ++ codes "_sum "
    ++ to_string h.sum
    ++ codes "\n"
    ++ name
    ++ codes "_count "
    ++ to_string h.count
    ++ codes "\n"

pub record Metrics : Type 0 where
  pub connections_total : ℕ
  pub active_connections : ℕ
  pub bytes_read : ℕ
  pub bytes_written : ℕ
  pub requests_total : ℕ
  pub request_latency : Histogram
  pub event_loop_lag : Histogram

unfoldable pub new_metrics : Metrics
new_metrics = record {
  connections_total = 0;
  active_connections = 0;
  bytes_read = 0;
  bytes_written = 0;
  requests_total = 0;
  request_latency = new_histogram;
  event_loop_lag = new_histogram;
}

abbrev pub inc_connections_total : Metrics → Metrics
inc_connections_total m = record m { connections_total = fetch_add m.connections_total 1 }

abbrev pub inc_active_connections : Metrics → Metrics
inc_active_connections m = record m { active_connections = fetch_add m.active_connections 1 }

abbrev pub dec_active_connections : Metrics → Metrics
dec_active_connections m = record m { active_connections = fetch_sub m.active_connections 1 }

abbrev add_bytes_read : ℕ → Metrics → Metrics
add_bytes_read n m = record m { bytes_read = fetch_add m.bytes_read n }

abbrev add_bytes_written : ℕ → Metrics → Metrics
add_bytes_written n m = record m { bytes_written = fetch_add m.bytes_written n }

abbrev pub inc_requests : Metrics → Metrics
inc_requests m = record m { requests_total = fetch_add m.requests_total 1 }

abbrev pub record_request_latency_us : ℕ → Metrics → Metrics
record_request_latency_us us m = record m { request_latency = observe us m.request_latency }

abbrev pub record_event_loop_lag_us : ℕ → Metrics → Metrics
record_event_loop_lag_us us m = record m { event_loop_lag = observe us m.event_loop_lag }

-- A counter or a gauge with its type.
abbrev single : List ℕ → List ℕ → ℕ → List ℕ
single name kind n =
    codes "# TYPE "
    ++ name
    ++ codes " "
    ++ kind
    ++ codes "\n"
    ++ name
    ++ codes " "
    ++ to_string n
    ++ codes "\n"

unfoldable export_prometheus : Metrics → List ℕ
export_prometheus m =
    let out =
      single (codes "lightnet_connections_total") (codes "counter") m.connections_total
      ++ single (codes "lightnet_active_connections") (codes "gauge") m.active_connections
      ++ single (codes "lightnet_bytes_read_total") (codes "counter") m.bytes_read
      ++ single (codes "lightnet_bytes_written_total") (codes "counter") m.bytes_written
      ++ single (codes "lightnet_requests_total") (codes "counter") m.requests_total in
    let latency = export_to out (codes "lightnet_request_latency_us") m.request_latency in
    export_to latency (codes "lightnet_event_loop_lag_us") m.event_loop_lag
