-- ===== src/MarcSample/Second.antt =====
-- src/yaz-marc-sample.cpp: records 9 to 16 of `marc_records`, by their characters.
use yazpp.Prelude.{List, [], ◌∷◌}
use yazpp.Prelude.Text.{String}

abbrev pub record_nine : List String
record_nine =
    "00791cam  2200217   4500001001800000003000400018005001700022008004100039010002200551"
    ∷ "040001800080043003000098050001800128082001800146100002100164245016200185260002300347"
    ∷ "300002600370500002900396650006400425710006200489\u{1e}   77616367 //r84\u{1e}DLC\u{1e}1984"
    ∷ "1213000000.0\u{1e}720329s1971    dcua          00010 eng  \u{1e}  \u{1f}aDLC\u{1f}cDLC\u{1f}dD"
    ∷ "LC\u{1e}  \u{1f}an-us-dc\u{1f}an-us-md\u{1f}an-us-va\u{1e}00\u{1f}aHE2781.W3\u{1f}bE5\u{1e}00\u{1f}a38"
    ∷ "5/.22/09753\u{1e}10\u{1f}aEnglund, Carl R.\u{1e}10\u{1f}aWashington metropolitan area rail c"
    ∷ "omputer feasibility study;\u{1f}bfinal report\u{1f}c[by] Carl R. Englund, Jr. Prepared f"
    ∷ "or Urban Mass Transportation Administration.\u{1e}0 \u{1f}aWashington,\u{1f}c1971.\u{1e}  "
    ∷ "\u{1f}a92 l.\u{1f}billus.\u{1f}c28 cm.\u{1e}  \u{1f}a\"Contract DOT-UT-10003.\"\u{1e} 0\u{1f}aRail"
    ∷ "roads\u{1f}zWashington Metropolitan Area\u{1f}xCommuting traffic.\u{1e}10\u{1f}aUnited State"
    ∷ "s.\u{1f}bUrban Mass Transportation Administration.\u{1e}  \u{1f}a   77616367 //r84\u{1e}\u{1d}"
    ∷ []

abbrev pub record_ten : List String
record_ten =
    "00686cam  2200229   4500001001800000003000400018005001700022008004100039010002200434"
    ∷ "040001800080043001200098050002400110082001900134110007000153245005500223250000900278"
    ∷ "260002100287300001800308500001700326650004800343650004300391\u{1e}   77637075 //r82"
    ∷ "\u{1e}DLC\u{1e}19820817000000.0\u{1e}720320s1971    wau      s    00000 eng  \u{1e}  \u{1f}aDL"
    ∷ "C\u{1f}cDLC\u{1f}dDLC\u{1e}  \u{1f}an-us-wa\u{1e}00\u{1f}aLB1028.5\u{1f}b.W37 1971\u{1e}00\u{1f}a378/."
    ∷ "052/09797\u{1e}10\u{1f}aWashington (State).\u{1f}bState Board for Community College Educat"
    ∷ "ion.\u{1e}12\u{1f}aA plan for community college computer development.\u{1e}  \u{1f}aRev.\u{1e}"
    ∷ "1 \u{1f}a[Olympia]\u{1f}c1971.\u{1e}  \u{1f}a47 l.\u{1f}c28 cm.\u{1e}  \u{1f}aCover title.\u{1e} 0"
    ∷ "\u{1f}aUniversities and colleges\u{1f}xData processing.\u{1e} 0\u{1f}aCommunity colleges\u{1f}"
    ∷ "zWashington (State)\u{1e}  \u{1f}a   77637075 //r82\u{1e}\u{1d}" ∷ []

abbrev pub record_eleven : List String
record_eleven =
    "00668nam  22002171  4500001001300000003000400013005001700017008004100034010001700433"
    ∷ "040001800075050001800093082001600111100001900127245007600146260004000222300004000262"
    ∷ "350000900302490003200311504003000343630006000373\u{1e}   70001070 \u{1e}DLC\u{1e}197004270"
    ∷ "00000.0\u{1e}700302s1968    mouab    b    00000 eng  \u{1e}  \u{1f}aDLC\u{1f}cDLC\u{1f}dDLC"
    ∷ "\u{1e}00\u{1f}aBS1275.5\u{1f}b.O2\u{1e}00\u{1f}a222/.15/007\u{1e}10\u{1f}aOberst, Bruce.\u{1e}00\u{1f}"
    ∷ "aDeuteronomy.\u{1f}cThought questions, by Don DeWelt. Summary by Adam Clarke.\u{1e}0 "
    ∷ "\u{1f}aJoplin, Mo.,\u{1f}bCollege Press\u{1f}c[1968]\u{1e}  \u{1f}aviii, 452 p.\u{1f}billus., ma"
    ∷ "ps.\u{1f}c22 cm.\u{1e}  \u{1f}a5.95\u{1e}0 \u{1f}aBible study textbook series\u{1e}  \u{1f}aBiblio"
    ∷ "graphy: p. 449-452.\u{1e} 0\u{1f}aBible. O.T. Deuteronomy\u{1f}xStudy\u{1f}xOutlines, syllab"
    ∷ "i, etc.\u{1e}  \u{1f}a   70001070 \u{1e}\u{1d}" ∷ []

abbrev pub record_twelve : List String
record_twelve =
    "00888pam  2200265   4500001001300000003000400013005001700017008004100034010001700605"
    ∷ "020001500075040001800090043001200108050002000120082001200140100002900152245009300181"
    ∷ "260005500274300002800329500008100357504004100438650004500479650002500524651002200549"
    ∷ "830003400571\u{1e}   72002565 \u{1e}DLC\u{1e}19730409000000.0\u{1e}720418r19721909nyu      b"
    ∷ "    00000 eng  \u{1e}  \u{1f}a0836968433\u{1e}  \u{1f}aDLC\u{1f}cDLC\u{1f}dDLC\u{1e}  \u{1f}ae-gr---"
    ∷ "\u{1e}00\u{1f}aBL785\u{1f}b.A3 1972\u{1e}00\u{1f}a292/.08\u{1e}10\u{1f}aAdam, James,\u{1f}d1860-1907"
    ∷ ".\u{1e}14\u{1f}aThe religious teachers of Greece.\u{1f}cEdited with a memoir, by his wife,"
    ∷ " Adela Marion Adam.\u{1e}0 \u{1f}aFreeport, N.Y.,\u{1f}bBooks for Libraries Press\u{1f}c[197"
    ∷ "2]\u{1e}  \u{1f}axix, lv, 467 p.\u{1f}c22 cm.\u{1e}  \u{1f}aReprint of the 1909 ed., which was"
    ∷ " issued as the 1904-1906 Gifford lectures.\u{1e}  \u{1f}aIncludes bibliographical refere"
    ∷ "nces.\u{1e} 0\u{1f}aGreek literature\u{1f}xHistory and criticism.\u{1e} 0\u{1f}aPhilosophy, An"
    ∷ "cient.\u{1e} 0\u{1f}aGreece\u{1f}xReligion.\u{1e} 0\u{1f}aGifford lectures,\u{1f}v1904-1906.\u{1e}"
    ∷ "  \u{1f}a   72002565 \u{1e}\u{1d}" ∷ []

abbrev pub record_thirteen : List String
record_thirteen =
    "01126nam  2200265 a 4500001001300000003000400013005001700017008004100034010001700843"
    ∷ "020003100075040001800106050002100124082001800145100004200163245015800205250003700363"
    ∷ "260004500400300005000445440003500495630006400530630006400594630006200658630006300720"
    ∷ "730006000783\u{1e}   80082329 \u{1e}DLC\u{1e}19810528000000.0\u{1e}810526s1980    ctuaf     "
    ∷ "    00010 eng  \u{1e}  \u{1f}a0879832355 (pbk.) :\u{1f}c$4.95\u{1e}  \u{1f}aDLC\u{1f}cDLC\u{1f}dDL"
    ∷ "C\u{1e}00\u{1f}aBS1433\u{1f}b.S5 1980\u{1e}00\u{1f}a223/.2077\u{1f}219\u{1e}10\u{1f}aSmith, George A"
    ∷ "dam,\u{1f}cSir,\u{1f}d1856-1942.\u{1e}10\u{1f}aFour psalms :\u{1f}bXXIII, XXXVI, LII, CXXI /"
    ∷ "\u{1f}cinterpreted for practical use by George Adam Smith ; introduction by F.F. Bruce"
    ∷ " ; illustrations by Ron McCarty.\u{1e}  \u{1f}aShepherd illustrated classic ed.\u{1e}0 "
    ∷ "\u{1f}aNew Canaan, Conn. :\u{1f}bKeats Pub.,\u{1f}cc1980.\u{1e}  \u{1f}a81 p., [5] leaves of p"
    ∷ "lates :\u{1f}bill. ;\u{1f}c21 cm.\u{1e} 2\u{1f}aA Shepherd illustrated classic\u{1e}00\u{1f}aBib"
    ∷ "le.\u{1f}pO.T.\u{1f}pPsalms XXIII\u{1f}xCriticism, interpretation, etc.\u{1e}00\u{1f}aBible."
    ∷ "\u{1f}pO.T.\u{1f}pPsalms XXXVI\u{1f}xCriticism, interpretation, etc.\u{1e}00\u{1f}aBible.\u{1f}p"
    ∷ "O.T.\u{1f}pPsalms LII\u{1f}xCriticism, interpretation, etc.\u{1e}00\u{1f}aBible.\u{1f}pO.T."
    ∷ "\u{1f}pPsalms CXXI\u{1f}xCriticism, interpretation, etc.\u{1e}01\u{1f}aBible.\u{1f}pO.T.\u{1f}pP"
    ∷ "salms XXIII, XXXVI, LII, CXXI.\u{1f}lEnglish.\u{1e}  \u{1f}a   80082329 \u{1e}\u{1d}" ∷ []

abbrev pub record_fourteen : List String
record_fourteen =
    "01433nas  2200421 a 4500001000900000003000400009005001700013008004100030010003100071"
    ∷ "022001400102030001100116032001700127035002000144035002700164040009600191042001300287"
    ∷ "050002000300070001800320072000900338082001400347210001900361222001900380245002000399"
    ∷ "260004300419265005800462300001700520310006200537350001100599362003200610500002400642"
    ∷ "650004600666650003600712650003900748650003500787650003300822780008200855850007400937"
    ∷ "\u{1e}ACD-3837\u{1e}DLC\u{1e}19940614065614.0\u{1e}920728c19929999ctumn1p       0   a0eng d"
    ∷ "\u{1e}  \u{1f}a   92646062 \u{1f}zsn 92004430 \u{1e}0 \u{1f}a1064-3923\u{1e}  \u{1f}aIERNE8\u{1e}  "
    ∷ "\u{1f}a008187\u{1f}bUSPS\u{1e}  \u{1f}a(OCoLC)26273275\u{1e}00\u{1f}ilcmarc/AQP-6285/JEANNE\u{1e} "
    ∷ " \u{1f}aNSDP\u{1f}cNSDP\u{1f}dWaU\u{1f}dNIC\u{1f}dDNAL\u{1f}dOUCA\u{1f}dNST\u{1f}dDLC\u{1f}dNST\u{1f}dNS"
    ∷ "DP\u{1f}dNST\u{1f}dDLC\u{1f}dInU\u{1f}dMH\u{1f}dNSDP\u{1f}dN\u{1f}dDLC\u{1f}dMiU\u{1e}  \u{1f}ansdp\u{1f}a"
    ∷ "lc\u{1e}00\u{1f}aTK5105.5\u{1f}b.R448\u{1e}0 \u{1f}aTK5105.5.R448\u{1e} 0\u{1f}aX200\u{1e}00\u{1f}a384"
    ∷ ".3\u{1f}220\u{1e}0 \u{1f}aInternet world\u{1e} 0\u{1f}aInternet world\u{1e}00\u{1f}aInternet world"
    ∷ ".\u{1e}  \u{1f}aWestport, CT :\u{1f}bMeckler Corp.,\u{1f}cc1992-\u{1e}  \u{1f}aMeckler Corp., 11"
    ∷ " Ferry Lane West, Westport, CT 06880\u{1e}  \u{1f}av. ;\u{1f}c28 cm.\u{1e}  \u{1f}aMonthly (ex"
    ∷ "cept Jan./Feb., July/Aug., Nov./Dec. combined)\u{1e}  \u{1f}a$97.00\u{1e}0 \u{1f}aVol. 3, no"
    ∷ ". 7 (Sept. 1992)-\u{1e}  \u{1f}aTitle from caption.\u{1e} 0\u{1f}aInternet (Computer network"
    ∷ ")\u{1f}xPeriodicals.\u{1e} 0\u{1f}aComputer networks\u{1f}xPeriodicals.\u{1e} 0\u{1f}aInformatio"
    ∷ "n networks\u{1f}xPeriodicals.\u{1e} 2\u{1f}aComputer Systems\u{1f}xperiodicals.\u{1e} 2\u{1f}aOn"
    ∷ "line Systems\u{1f}xperiodicals.\u{1e}00\u{1f}tResearch & education networking\u{1f}x1051-479"
    ∷ "1\u{1f}w(DLC)   90646613\u{1f}w(OCoLC)21974448\u{1e}  \u{1f}aDLC\u{1f}aDNAL\u{1f}aDNGA\u{1f}aInU"
    ∷ "\u{1f}aMBCo\u{1f}aMH-Ed\u{1f}aMdBJ\u{1f}aMiU\u{1f}aMoKL\u{1f}aN\u{1f}aNIC\u{1f}aTxHR\u{1f}aWaU\u{1e}\u{1d}"
    ∷ []

abbrev pub record_fifteen : List String
record_fifteen =
    "01330nas  22003735a 4500001000900000003000400009005001700013008004100030010001700071"
    ∷ "022002500088035002000113035002700133040002900160042001600189043001200205055001200217"
    ∷ "082001200229130003500241210002700276222002900303245001700332260005400349265006900403"
    ∷ "300002500472310001200497350002100509362003300530500002400563580005800587780008300645"
    ∷ "780005100728785008300779787009400862\u{1e}ACD-3799\u{1e}DLC\u{1e}19940614090514.0\u{1e}92072"
    ∷ "3c19919999oncmr4p       0   a0eng d\u{1e}  \u{1f}acn 92031641 \u{1e}0 \u{1f}a1187-7081\u{1f}y0"
    ∷ "025-9535\u{1e}  \u{1f}a(OCoLC)26244844\u{1e}00\u{1f}ilcmarc/AQF-2896/JEANNE\u{1e}  \u{1f}aCaOOCM"
    ∷ "\u{1f}beng\u{1f}cCaOONL\u{1f}dInU\u{1e}  \u{1f}anlc\u{1f}aisds/c\u{1e}  \u{1f}an-cn---\u{1e} 2\u{1f}aHD9"
    ∷ "696*\u{1e}1 \u{1f}a004\u{1f}212\u{1e}0 \u{1f}aInfo Canada (Downsview, Ont.).\u{1e}0 \u{1f}aInfo Ca"
    ∷ "n.\u{1f}b(Downsview)\u{1e} 0\u{1f}aInfo Canada\u{1f}b(Downsview)\u{1e}00\u{1f}aInfo Canada.\u{1e} "
    ∷ " \u{1f}aDownsview, Ont. :\u{1f}bLaurentian Technomedia,\u{1f}c1991-\u{1e}  \u{1f}aLaurentian T"
    ∷ "echnomedia, 501 Oakdale Rd., Downsview, Ont. M3N 1W7\u{1e}  \u{1f}av. :\u{1f}bill. ;\u{1f}c4"
    ∷ "0 cm.\u{1e}  \u{1f}aMonthly\u{1e}  \u{1f}a$50.00 per year.\u{1e}0 \u{1f}aVol. 16, no. 9 (Sept. 1"
    ∷ "991)-\u{1e}  \u{1f}aTitle from caption.\u{1e}  \u{1f}aIncludes: Network world Canada, Sept. "
    ∷ "1991-Jan. 1992.\u{1e}00\u{1f}tComputer data\u{1f}x0383-7319\u{1f}w(CaOONL)770308317\u{1f}w(OCo"
    ∷ "LC)11416479\u{1f}w(DLC)cn 77030831\u{1e}05\u{1f}tI.T. magazine (Toronto, Ont.)\u{1f}w(OCoLC)"
    ∷ "27699066\u{1e}01\u{1f}tNetwork world Canada\u{1f}gFeb. 1992\u{1f}x1187-2985\u{1f}w(OCoLC)25314"
    ∷ "012\u{1f}w(CaOONL)920305725\u{1e}1 \u{1f}tNetwork world Canada\u{1f}gSept. 1991-Jan. 1992"
    ∷ "\u{1f}x1187-2985\u{1f}w(OCoLC)25314012\u{1f}w(CaOONL)920305725\u{1e}\u{1d}" ∷ []

abbrev pub record_sixteen : List String
record_sixteen =
    "00803nam  22002898a 4500001000900000003000400009005001700013008004100030010001700071"
    ∷ "020001500088035002700103040001300130043001200143050002800155082001800183100002500201"
    ∷ "245009500226250001200321260003400333263000900367300001100376500002000387630003800407"
    ∷ "600002200445600001500467650003100482\u{1e}ACD-3792\u{1e}DLC\u{1e}19931215084605.7\u{1e}93120"
    ∷ "6s1993    nyu           001 0 eng  \u{1e}  \u{1f}a   93047992 \u{1e}  \u{1f}a1562827545\u{1e}0"
    ∷ "0\u{1f}ilcmarc/ARU-2364/STEVES\u{1e}  \u{1f}aDLC\u{1f}cDLC\u{1e}  \u{1f}an-us---\u{1e}00\u{1f}aPN199"
    ∷ "2.77.T63\u{1f}bC37 1993\u{1e}00\u{1f}a791.45/72\u{1f}220\u{1e}1 \u{1f}aCarter, Bill,\u{1f}d1949-"
    ∷ "\u{1e}14\u{1f}aThe late shift :\u{1f}bLetterman, Leno, and the network battle for the nigh"
    ∷ "t /\u{1f}cby Bill Carter.\u{1e}  \u{1f}a1st ed.\u{1e}  \u{1f}aNew York :\u{1f}bHyperion,\u{1f}cc19"
    ∷ "93.\u{1e}  \u{1f}a9402\u{1e}  \u{1f}ap. cm.\u{1e}  \u{1f}aIncludes index.\u{1e}00\u{1f}aTonight show"
    ∷ " (Television program)\u{1e}10\u{1f}aLetterman, David.\u{1e}10\u{1f}aLeno, Jay.\u{1e} 0\u{1f}aTal"
    ∷ "k shows\u{1f}zUnited States.\u{1e}\u{1d}" ∷ []
