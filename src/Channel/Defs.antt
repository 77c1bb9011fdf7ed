-- ===== src/Channel/Defs.antt =====
-- durable_channel.go: `DurableChannel`, over any server and any way to compress a message.
use go_cachex.Base.{
  ℕ, zero, suc, ◌+◌, ◌-◌, ◌*◌, ◌%◌, Bool, true, false, Option, none, some, List, [], ◌∷◌, ◌++◌,
  length, ltb, ◌==◌, if◌then◌else◌, ℤ, pos, negsuc, codes,
}
use go_cachex.Cache.{Str, second}
use go_cachex.Lru.{if_le_zero}
use go_cachex.Lock.{if_not_empty}
use go_cachex.Redis.{Fault}
use go_cachex.Ids.{digits}

pub data PersistMode : Type 0 where
  persist_sync persist_async persist_hybrid unknown_mode : PersistMode

abbrev pub show_mode : PersistMode → Str
show_mode persist_sync = codes "PersistSync"
show_mode persist_async = codes "PersistAsync"
show_mode persist_hybrid = codes "PersistHybrid"
show_mode unknown_mode = codes "Unknown"

-- `blocked` is no error of the source: the call does not return.
pub data ChannelError : Type 0 where
  channel_closed context_done compress_failed decompress_failed unknown_persist_mode : ChannelError
  no_data blocked : ChannelError
  persist_failed pull_failed length_failed : Fault → ChannelError

abbrev pub blpop_min_timeout : ℕ
blpop_min_timeout = second

-- A shorter time is raised, and another one rounded up to whole seconds.
unfoldable pub blpop_timeout : ℕ → ℕ
blpop_timeout d =
    if ltb d blpop_min_timeout
    then blpop_min_timeout
    else if d % second == 0
    then d
    else d - d % second + second

-- What a caller passes; a duration is in nanoseconds.
pub record DurableChannelConfig : Type 0 where
  pub name : Str
  pub namespace : Str
  pub worker_id : ℤ
  pub buffer_size : ℤ
  pub persistence_mode : PersistMode
  pub worker_count : ℤ
  pub poll_interval : ℤ
  pub recovery_on_start : Bool
  pub ttl : ℤ
  pub enable_compression : Bool
  pub compression_min_size : ℤ
  pub query_timeout : ℤ

abbrev pub default_durable_channel_config : Str → DurableChannelConfig
default_durable_channel_config name = record {
  name = name;
  namespace = codes "dchan";
  worker_id = pos 0;
  buffer_size = pos 100;
  persistence_mode = persist_hybrid;
  worker_count = pos 1;
  poll_interval = pos blpop_min_timeout;
  recovery_on_start = true;
  ttl = pos (86_400 * second);
  enable_compression = false;
  compression_min_size = pos 1024;
  query_timeout = pos (3 * second);
}

-- The numbers after the defaults of the constructor.
pub record ChannelSettings : Type 0 where
  pub buffer_size : ℕ
  pub poll_interval : ℕ
  pub ttl : ℕ
  pub workers : ℕ

abbrev pub starts_worker : PersistMode → Bool
starts_worker persist_sync = false
starts_worker persist_async = true
starts_worker persist_hybrid = true
starts_worker unknown_mode = true

abbrev pub worker_loops : ℤ → ℕ
worker_loops (pos zero) = 1
worker_loops (pos (suc n)) = suc n
worker_loops (negsuc n) = 0

unfoldable pub settings_of : DurableChannelConfig → ChannelSettings
unfolding if_le_zero
settings_of c = record {
  buffer_size = if_le_zero c.buffer_size 100;
  poll_interval = if_le_zero c.poll_interval blpop_min_timeout;
  ttl = if_le_zero c.ttl (86_400 * second);
  workers = if starts_worker c.persistence_mode then worker_loops c.worker_count else 0;
}

unfoldable pub show_int : ℤ → Str
unfolding digits
show_int (pos n) = digits n
show_int (negsuc n) = b'-' ∷ digits (suc n)

unfoldable pub get_queue_key : DurableChannelConfig → Str
unfolding show_int
get_queue_key c =
    if_not_empty c.namespace (codes "dchan")
    ++ (b':' ∷ (c.name ++ (b':' ∷ (show_int c.worker_id ++ codes ":queue"))))

module _ (T : Type 0) where
  -- `zipx.ZlibCompressObject` and `zipx.ZlibDecompressObject`.
  pub record Codec : Type 0 where
    pub compress : T → Option Str
    pub decompress : Str → Option T

  -- `buffer` is `memChan`; `shut` says that it is closed, and `cancelled` that `dc.ctx` has ended. `jobs`
  -- are the messages that the persistence pool has taken.
  pub record DurableChannel : Type 0 where
    pub settings : ChannelSettings
    pub mode : PersistMode
    pub queue_key : Str
    pub buffer : List T
    pub jobs : List T
    pub closed : Bool
    pub cancelled : Bool
    pub shut : Bool

  unfoldable pub has_room : DurableChannel → Bool
  has_room d = ltb (length d.buffer) d.settings.buffer_size

  unfoldable pub put : T → DurableChannel → DurableChannel
  put x d = record d { buffer = d.buffer ++ x ∷ [] }

  -- Before the recovery and the workers; an empty name panics.
  unfoldable pub make_channel : DurableChannelConfig → Option DurableChannel
  unfolding settings_of get_queue_key
  make_channel c = elim c.name [
    | [] ↦ none
    | _ ∷ _ ↦ some (record {
      settings = settings_of c;
      mode = c.persistence_mode;
      queue_key = get_queue_key c;
      buffer = [];
      jobs = [];
      closed = false;
      cancelled = false;
      shut = false;
    })
  ]

  -- `others` is what happens while the goroutines are waited for.
  unfoldable pub close : (DurableChannel → DurableChannel) → DurableChannel → DurableChannel
  close others d =
      if d.closed
      then d
      else record (others (record d { closed = true; cancelled = true })) { shut = true }

  -- `none` is `(zero, false)`, and `some none` is `(zero, true)`; `gives_up` is the choice between a
  -- message and a context that has ended.
  unfoldable pub try_receive : Bool → DurableChannel → DurableChannel × Option (Option T)
  try_receive gives_up d = if gives_up then (d, none) else elim d.buffer [
    | [] ↦ (d, if d.shut then some none else none)
    | x ∷ rest ↦ (record d { buffer = rest }, some (some x))
  ]

  abbrev pub mem_len : DurableChannel → ℕ
  mem_len d = length d.buffer
