-- ===== src/Chain/Tests.antt =====
-- Chained commands at concrete arguments.
use xredis_client.Base.{Bytes, [], ◌∷◌, none, if◌then◌else◌, codes, ◌≡◌, refl}
use xredis_client.Client.Routes.{AnyCommand, keyed, of_zset, client_args, cluster_route}
use xredis_client.Client.SortedSets.{zinter}
use xredis_client.Chain.Words.{
  chained, appended, appended_route, pipelines, if_some, chained-client, appended-client,
  appended_route-cluster,
}

-- A double as its own text.
abbrev same : Bytes → Bytes
same s = s

abbrev request : AnyCommand Bytes
request = keyed (of_zset (zinter 2 (codes "a") (codes "b" ∷ [])))

chained-client_example :
    chained same request ≡ if_some (pipelines request) (client_args same request)
chained-client_example = chained-client same request

appended-client_example :
    appended same request ≡ if_some (pipelines request) (client_args same request)
appended-client_example = appended-client same request refl

appended_route-cluster_example :
    appended_route same request ≡ (if pipelines request then cluster_route same request else none)
appended_route-cluster_example = appended_route-cluster same request refl
