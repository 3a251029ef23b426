-- ===== src/Commit/TreeDccProof/Table.antt =====
-- `CC_TREE_D_NODE_VALUES` of c1/tree_d_cc_nodes.h: the node of each row of a tree of zeros. A node is eight
-- words of four bytes, the lowest first. The last entry is the source's placeholder for 64GB.
use supra_seal.Prelude.{List, [], ◌∷◌}
use supra_seal.Commit.Output.{Node}

abbrev pub cc_tree_d_node_values : List Node
cc_tree_d_node_values =
    record { limbs = 0 ∷ 0 ∷ 0 ∷ 0 ∷ 0 ∷ 0 ∷ 0 ∷ 0 ∷ [] }
    ∷ record {
      limbs =
          1123919349 ∷ 807430865 ∷ 1861195815 ∷ 2610366931 ∷ 591200323 ∷ 3908098336 ∷ 2838599914
          ∷ 201021735 ∷ [];
    }
    ∷ record {
      limbs =
          2579181879 ∷ 1721723052 ∷ 1050146286 ∷ 416977994 ∷ 2933673359 ∷ 4230219608 ∷ 232144751
          ∷ 864241917 ∷ [];
    }
    ∷ record {
      limbs =
          2120231524 ∷ 78677752 ∷ 2014915775 ∷ 3571530310 ∷ 4106238569 ∷ 455994128 ∷ 553535354
          ∷ 259350110 ∷ [];
    }
    ∷ record {
      limbs =
          439919191 ∷ 4096484648 ∷ 2062510975 ∷ 3835389898 ∷ 1901649582 ∷ 3958594731 ∷ 1141966892
          ∷ 646302600 ∷ [];
    }
    ∷ record {
      limbs =
          1506376223 ∷ 2665484373 ∷ 189144228 ∷ 3140510743 ∷ 4225117234 ∷ 2093297217 ∷ 2593684913
          ∷ 792137795 ∷ [];
    }
    ∷ record {
      limbs =
          2190638844 ∷ 4195804566 ∷ 2995186093 ∷ 1255445135 ∷ 901325903 ∷ 925061704 ∷ 663779690
          ∷ 871897276 ∷ [];
    }
    ∷ record {
      limbs =
          947635208 ∷ 1136399342 ∷ 1553013748 ∷ 295300366 ∷ 3011928226 ∷ 457204461 ∷ 2374751737
          ∷ 620158745 ∷ [];
    }
    ∷ record {
      limbs =
          4219200690 ∷ 2496526865 ∷ 1554997791 ∷ 2772307829 ∷ 401952204 ∷ 1844561109 ∷ 2077734066
          ∷ 799261102 ∷ [];
    }
    ∷ record {
      limbs =
          1616978681 ∷ 3207068104 ∷ 3440952540 ∷ 826868722 ∷ 2928541766 ∷ 419593723 ∷ 2169790029
          ∷ 139526281 ∷ [];
    }
    ∷ record {
      limbs =
          1268128300 ∷ 3948481465 ∷ 2725056510 ∷ 3814381210 ∷ 1248991204 ∷ 1947303055 ∷ 3251257434
          ∷ 289466341 ∷ [];
    }
    ∷ record {
      limbs =
          3464029182 ∷ 2969855217 ∷ 2984308121 ∷ 615911742 ∷ 1333304831 ∷ 2374495675 ∷ 2038311299
          ∷ 38732382 ∷ [];
    }
    ∷ record {
      limbs =
          52731534 ∷ 4132210938 ∷ 3747643171 ∷ 3829332005 ∷ 3634285069 ∷ 1668279161 ∷ 2219888978
          ∷ 1057861109 ∷ [];
    }
    ∷ record {
      limbs =
          2476092789 ∷ 611653370 ∷ 3816182841 ∷ 2156243223 ∷ 2940668400 ∷ 1074111415 ∷ 698951126
          ∷ 120242460 ∷ [];
    }
    ∷ record {
      limbs =
          267788912 ∷ 4205704830 ∷ 1383731479 ∷ 3459292769 ∷ 124267688 ∷ 1713168218 ∷ 1357678199
          ∷ 422440814 ∷ [];
    }
    ∷ record {
      limbs =
          3112671449 ∷ 2520405875 ∷ 1687360481 ∷ 2076259922 ∷ 879774751 ∷ 2848400343 ∷ 3030085791
          ∷ 722887130 ∷ [];
    }
    ∷ record {
      limbs =
          3677402576 ∷ 1559409840 ∷ 673853277 ∷ 2340482783 ∷ 36323667 ∷ 3289915283 ∷ 1419965849
          ∷ 638806792 ∷ [];
    }
    ∷ record {
      limbs =
          457359492 ∷ 22702240 ∷ 593131967 ∷ 3830384196 ∷ 2840771876 ∷ 3010937810 ∷ 1263337364
          ∷ 300443717 ∷ [];
    }
    ∷ record {
      limbs =
          1570697829 ∷ 3276198552 ∷ 4237047947 ∷ 1797249798 ∷ 3305313026 ∷ 184584610 ∷ 2838685916
          ∷ 474148035 ∷ [];
    }
    ∷ record {
      limbs =
          141894818 ∷ 2521847848 ∷ 1261665883 ∷ 3232769841 ∷ 1188081986 ∷ 557864156 ∷ 3632030263
          ∷ 987864185 ∷ [];
    }
    ∷ record {
      limbs =
          1839988186 ∷ 1396979369 ∷ 1915973058 ∷ 3824131947 ∷ 2173681219 ∷ 163618404 ∷ 4294628266
          ∷ 141910352 ∷ [];
    }
    ∷ record {
      limbs =
          3772072409 ∷ 2571776470 ∷ 3187618652 ∷ 292142671 ∷ 3855905677 ∷ 533933309 ∷ 3951459343
          ∷ 115807453 ∷ [];
    }
    ∷ record {
      limbs =
          1547914321 ∷ 1238565949 ∷ 3177133733 ∷ 331874137 ∷ 2014417250 ∷ 2747371865 ∷ 552745669
          ∷ 790262905 ∷ [];
    }
    ∷ record {
      limbs =
          965019309 ∷ 880661353 ∷ 2682259711 ∷ 1242207062 ∷ 3733560017 ∷ 4005498102 ∷ 2167610750
          ∷ 924641217 ∷ [];
    }
    ∷ record {
      limbs =
          2064537145 ∷ 121350419 ∷ 670909346 ∷ 3416784672 ∷ 1345199422 ∷ 2657268570 ∷ 325317753
          ∷ 114961489 ∷ [];
    }
    ∷ record {
      limbs =
          314622924 ∷ 2170466549 ∷ 3720293146 ∷ 3090376719 ∷ 2075424066 ∷ 96479730 ∷ 1330151978
          ∷ 1029380668 ∷ [];
    }
    ∷ record {
      limbs =
          1771827837 ∷ 3902353783 ∷ 1997255922 ∷ 2231672209 ∷ 1758981641 ∷ 2066335714 ∷ 53941279
          ∷ 751223631 ∷ [];
    }
    ∷ record {
      limbs =
          2735066726 ∷ 3478287718 ∷ 3425419333 ∷ 2442298190 ∷ 900521627 ∷ 1660235742 ∷ 2676917361
          ∷ 122775419 ∷ [];
    }
    ∷ record {
      limbs =
          402809304 ∷ 3920976450 ∷ 598088795 ∷ 3835832733 ∷ 2835797792 ∷ 792606575 ∷ 3616643740
          ∷ 26988889 ∷ [];
    }
    ∷ record {
      limbs =
          508245613 ∷ 440682232 ∷ 2254981722 ∷ 3232502819 ∷ 1728147364 ∷ 1127539991 ∷ 3756931560
          ∷ 1015399043 ∷ [];
    }
    ∷ record {
      limbs =
          3730800135 ∷ 2466956597 ∷ 156280067 ∷ 1317685731 ∷ 2633228222 ∷ 3071326018 ∷ 2062342192
          ∷ 1051111367 ∷ [];
    }
    ∷ record { limbs = 0 ∷ 0 ∷ 0 ∷ 0 ∷ 0 ∷ 0 ∷ 0 ∷ 0 ∷ [] }
    ∷ []
