-- ===== src/Tests/LogService.antt =====
-- A Kafka target, and the fields of an event.
use blueboat.Prelude.{◌<◌, ◌^◌, Bytes, codes, some, split_once, ◌↔◌, ◌≡◌, refl}
use blueboat.Prelude.Ascii.{digits_value}
use blueboat.Prelude.Result.{Result, ok}
use blueboat.LogService.{LogServiceInner, captures, open_service}
use blueboat.LogService.Target.{IsTarget, open_service_iff}

-- A client that is its list of servers.
abbrev client : Bytes → Result Bytes
client servers = ok servers

abbrev kafka : LogServiceInner Bytes
kafka = record {
  producer = codes "k1:9092";
  topic = codes "logs";
  partition = 12;
  hostname = codes "h";
  pid = 7;
}

opens_kafka : open_service client (codes "h") 7 (codes "logs:12@k1:9092") ≡ ok kafka
unfolding open_service captures split_once digits_value
opens_kafka = refl

open_service_iff_example :
    (open_service client (codes "h") 7 (codes "logs:12@k1:9092") ≡ ok kafka) ↔ (
      (digits : Bytes) × (servers : Bytes) × IsTarget
        (codes "logs:12@k1:9092")
        kafka.topic
        digits
        servers
      × (digits_value (2 ^ 31) 0 digits ≡ some kafka.partition)
      × (kafka.partition < 2 ^ 31)
      × (client servers ≡ ok kafka.producer)
      × (kafka.hostname ≡ codes "h")
      × (kafka.pid ≡ 7))
open_service_iff_example = open_service_iff client (codes "h") 7 (codes "logs:12@k1:9092") kafka
